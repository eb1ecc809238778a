-- ===== src/Notices/Groups.antt =====
-- Events and timers in any order: what internal/listeners/notification_listener.go gathers.
use mathlib.Core.List.{append_assoc, append-nil}
use request_system.Common.{
  ℕ, Bool, true, false, not, ◌&&◌, Option, none, some, List, [], ◌∷◌, ◌++◌, select, any,
  if◌then◌else◌, ◌≡◌, refl, sym, ◌∙◌, ap, arith, Bool-cases, inl, inr,
}
use request_system.Notices.{
  Event, Key, State, Outside, same_key, group_of, without, joined, grouped,
  handle_order_history_created,
}
use request_system.Notices.Delivery.{Delivery, sent_for, closed, send_grouped_notification}

-- An event is published, or a timer ends.
pub data Move : Type 0 where
  happened : Event → Move
  timer_ends : Key → Move

abbrev pub has_timer : Key → State → Bool
has_timer k s = any (λ t. same_key t k) s.timers

abbrev pub stop_timer : Key → State → State
stop_timer k s = record s { timers = select (λ t. not (same_key t k)) s.timers }

abbrev found : Key → Option (List Event) → List (Key × List Event)
found k none = []
found k (some es) = (k, es) ∷ []

abbrev pub start : State
start = record { groups = []; timers = [] }

module _ (o : Outside) where
  -- Only a timer that runs can end. It ends once.
  abbrev pub moved : Move → State → List Delivery × State
  moved (happened e) s = ([], handle_order_history_created e s)
  moved (timer_ends k) s =
      let after = send_grouped_notification o k (stop_timer k s) in
      if has_timer k s then after else ([], s)

  -- The group that a move takes.
  abbrev pub taken : Move → State → List (Key × List Event)
  taken (happened e) s = []
  taken (timer_ends k) s = if has_timer k s then found k (group_of k s.groups) else []

  unfoldable pub run : List Move → State → List Delivery × State
  unfolding handle_order_history_created send_grouped_notification
  run [] s = ([], s)
  run (m ∷ ms) s = let (sent, s') = moved m s in let (rest, s'') = run ms s' in (sent ++ rest, s'')

  -- The groups that the timers take, one after another.
  unfoldable pub batches : List Move → State → List (Key × List Event)
  unfolding handle_order_history_created send_grouped_notification
  batches [] s = []
  batches (m ∷ ms) s = taken m s ++ batches ms (moved m s).1

abbrev or_empty : Option (List Event) → List Event
or_empty none = []
or_empty (some es) = es

-- The events that wait under a key.
abbrev pub pending : Key → State → List Event
pending k s = or_empty (group_of k s.groups)

abbrev keyed : Key → ℕ → Option ℕ → Bool
keyed k order none = false
keyed k order (some tx) = same_key (order, tx) k

-- The events of one order and one transaction among those that were published.
abbrev pub published : Key → List Move → List Event
published k [] = []
published k (happened e ∷ ms) =
    let rest = published k ms in if keyed k e.item.order_id e.item.tx_id then e ∷ rest else rest
published k (timer_ends k' ∷ ms) = published k ms

-- The events of one order and one transaction among the groups.
abbrev pub taken_for : Key → List (Key × List Event) → List Event
taken_for k [] = []
taken_for k ((k', es) ∷ rest) =
    let more = taken_for k rest in if same_key k' k then es ++ more else more

group_of-without :
    (k k' : Key) (g : List (Key × List Event))
    → group_of k (without k' g) ≡ (if same_key k' k then none else group_of k g)
group_of-without k k' [] = ground arith
group_of-without k k' (x ∷ g) = ground (arith, group_of-without k k' g)

-- A group waits only while its timer runs.
abbrev pub Timed : State → Type 0
Timed s = (k : Key) → has_timer k s ≡ false → group_of k s.groups ≡ none

pub same_key-eq : (a b : Key) → same_key a b ≡ true → a ≡ b
same_key-eq a b h =
    let x : a.0 ≡ b.0 = ground arith in
    let y : a.1 ≡ b.1 = ground arith in ap (λ n. (n, a.1)) x ∙ ap (λ n. (b.0, n)) y

joined-pending :
    (k k' : Key) (e : Event) (s : State) (f : Option (List Event))
    → group_of k' s.groups ≡ f
    → pending k (joined k' e f s) ≡ pending k s ++ (if same_key k' k then e ∷ [] else [])
joined-pending k k' e s f h = elim (Bool-cases (same_key k' k)) [
  | inl same ↦
      let at : group_of k s.groups ≡ f =
        ap (λ x. group_of x s.groups) (sym (same_key-eq k' k same)) ∙ h in
      new f at same
  | inr other ↦ old f other
]
  where
    new :
        (f : Option (List Event))
        → group_of k s.groups ≡ f
        → same_key k' k ≡ true
        → pending k (joined k' e f s) ≡ pending k s ++ (if same_key k' k then e ∷ [] else [])
    new none at same = ground arith
    new (some es) at same = ground arith

    old :
        (f : Option (List Event))
        → same_key k' k ≡ false
        → pending k (joined k' e f s) ≡ pending k s ++ (if same_key k' k then e ∷ [] else [])
    old none other = ground (arith, append-nil (pending k s))
    old (some es) other = ground (arith, append-nil (pending k s), group_of-without k k' s.groups)

joined-Timed :
    (k' : Key) (e : Event) (s : State) (f : Option (List Event))
    → group_of k' s.groups ≡ f
    → Timed s
    → Timed (joined k' e f s)
joined-Timed k' e s none at t k h = let old = t k (ground arith) in ground arith
joined-Timed k' e s (some es) at t k h = elim (Bool-cases (same_key k' k)) [
  | inl same ↦
      let old : group_of k s.groups ≡ none = t k h in
      let l : group_of k s.groups ≡ some es =
        ap (λ x. group_of x s.groups) (sym (same_key-eq k' k same)) ∙ at in
      cc
  | inr other ↦ let old = t k h in ground (arith, group_of-without k k' s.groups)
]

handle-pending :
    (k : Key) (e : Event) (s : State)
    → pending k (handle_order_history_created e s)
      ≡ pending k s ++ (if keyed k e.item.order_id e.item.tx_id then e ∷ [] else [])
unfolding handle_order_history_created
handle-pending k e s = by_tx e.item.tx_id
  where
    by_tx :
        (tx : Option ℕ)
        → pending k (grouped tx e s)
          ≡ pending k s ++ (if keyed k e.item.order_id tx then e ∷ [] else [])
    by_tx none = sym (append-nil (pending k s))
    by_tx (some tx) = joined-pending k (e.item.order_id, tx) e s _ refl

handle-Timed : (e : Event) (s : State) → Timed s → Timed (handle_order_history_created e s)
unfolding handle_order_history_created
handle-Timed e s t = by_tx e.item.tx_id
  where
    by_tx : (tx : Option ℕ) → Timed (grouped tx e s)
    by_tx none = t
    by_tx (some tx) = joined-Timed (e.item.order_id, tx) e s _ refl t

pub has_timer-stop_timer :
    (k k' : Key) (l : List Key)
    → any (λ t. same_key t k) (select (λ t. not (same_key t k')) l)
      ≡ (any (λ t. same_key t k) l && not (same_key k' k))
has_timer-stop_timer k k' [] = refl
has_timer-stop_timer k k' (t ∷ l) = ground (arith, has_timer-stop_timer k k' l)

module _ (o : Outside) where
  -- What is sent for the groups.
  abbrev pub all_sent : List (Key × List Event) → List Delivery
  all_sent [] = []
  all_sent ((k, es) ∷ rest) = sent_for o es ++ all_sent rest

  pub all_sent-append :
      (a b : List (Key × List Event)) → all_sent (a ++ b) ≡ all_sent a ++ all_sent b
  all_sent-append [] b = refl
  all_sent-append ((k, es) ∷ a) b =
      ap (λ l. sent_for o es ++ l) (all_sent-append a b)
      ∙ sym (append_assoc (sent_for o es) (all_sent a) (all_sent b))

  -- What a move does for one key, with the groups it takes and what it sends.
  abbrev pub Moved : Move → State → List (Key × List Event) → List Delivery × State → Type 0
  Moved m s groups r =
      Timed r.1
      × (r.0 ≡ all_sent groups)
      × ((k : Key) → taken_for k groups ++ pending k r.1 ≡ pending k s ++ published k (m ∷ []))

  closed-Moved :
      (k' : Key) (s : State) (f : Option (List Event))
      → group_of k' s.groups ≡ f
      → Timed s
      → Moved (timer_ends k') s (found k' f) (closed o k' f (stop_timer k' s))
  closed-Moved k' s none at t = (
    λ k h. elim (Bool-cases (same_key k' k)) [
      | inl same ↦ ap (λ x. group_of x s.groups) (sym (same_key-eq k' k same)) ∙ at
      | inr other ↦ t k (ground (arith, has_timer-stop_timer k k' s.timers))
    ],
    refl,
    λ k. sym (append-nil (pending k s)),
  )
  closed-Moved k' s (some es) at t = (
    λ k h. elim (Bool-cases (same_key k' k)) [
      | inl same ↦ ground (arith, group_of-without k k' s.groups)
      | inr other ↦
          let old = t k (ground (arith, has_timer-stop_timer k k' s.timers)) in
          ground (arith, group_of-without k k' s.groups)
    ],
    sym (append-nil (sent_for o es)),
    λ k. elim (Bool-cases (same_key k' k)) [
      | inl same ↦
          let l : group_of k s.groups ≡ some es =
            ap (λ x. group_of x s.groups) (sym (same_key-eq k' k same)) ∙ at in
          ground (arith, group_of-without k k' s.groups, append-nil es, append-nil (es ++ []))
      | inr other ↦ ground (arith, group_of-without k k' s.groups, append-nil (pending k s))
    ],
  )

  pub moved-Moved : (m : Move) (s : State) → Timed s → Moved m s (taken o m s) (moved o m s)
  unfolding send_grouped_notification
  moved-Moved (happened e) s t = (handle-Timed e s t, refl, λ k. handle-pending k e s)
  moved-Moved (timer_ends k') s t = by_timer (has_timer k' s)
    where
      by_timer :
          (b : Bool)
          → Moved
              (timer_ends k')
              s
              (if b then found k' (group_of k' s.groups) else [])
              (if b then send_grouped_notification o k' (stop_timer k' s) else ([], s))
      by_timer true = closed-Moved k' s _ refl t
      by_timer false = (t, refl, λ k. sym (append-nil (pending k s)))
