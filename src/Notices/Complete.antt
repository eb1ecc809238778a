-- ===== src/Notices/Complete.antt =====
-- Nothing that internal/listeners/notification_listener.go gathers is lost or sent twice.
use mathlib.Core.List.{append_assoc, append-nil}
use request_system.Common.{
  Bool, true, false, not, ◌&&◌, Option, none, some, List, [], ◌∷◌, ◌++◌, map, any, if◌then◌else◌,
  ◌≡◌, refl, sym, ◌∙◌, ap, arith, Bool-cases, inl, inr,
}
use request_system.Notices.{Event, Key, State, Outside, same_key, group_of}
use request_system.Notices.Delivery.{Delivery, closed, send_grouped_notification}
use request_system.Notices.Groups.{
  Move, happened, timer_ends, has_timer, stop_timer, start, taken, moved, run, batches, pending,
  published, taken_for, Timed, all_sent, all_sent-append, moved-Moved, has_timer-stop_timer,
  same_key-eq,
}

taken_for-append :
    (k : Key) (a b : List (Key × List Event))
    → taken_for k (a ++ b) ≡ taken_for k a ++ taken_for k b
taken_for-append k [] b = refl
taken_for-append k ((k', es) ∷ a) b =
    ground (arith, taken_for-append k a b, append_assoc es (taken_for k a) (taken_for k b))

published-first :
    (k : Key) (m : Move) (ms : List Move)
    → published k (m ∷ ms) ≡ published k (m ∷ []) ++ published k ms
published-first k (happened e) ms = ground arith
published-first k (timer_ends k') ms = refl

published-timers : (k : Key) (l : List Key) → published k (map timer_ends l) ≡ []
published-timers k [] = refl
published-timers k (k' ∷ l) = published-timers k l

contradicts : (b : Bool) → (b && not b) ≡ false
contradicts true = refl
contradicts false = refl

module _ (o : Outside) where
  abbrev Complete : List Move → State → List (Key × List Event) → List Delivery × State → Type 0
  Complete ms s groups r =
      Timed r.1
      × (r.0 ≡ all_sent o groups)
      × ((k : Key) → taken_for k groups ++ pending k r.1 ≡ pending k s ++ published k ms)

  run-Complete :
      (ms : List Move) (s : State) → Timed s → Complete ms s (batches o ms s) (run o ms s)
  unfolding run batches
  run-Complete [] s t = (t, refl, λ k. sym (append-nil (pending k s)))
  run-Complete (m ∷ ms) s t =
      let (t', sent, held) = moved-Moved o m s t in
      let s' = (moved o m s).1 in
      let (t'', sent', held') = run-Complete ms s' t' in
      let first = taken o m s in
      let rest = batches o ms s' in
      (
        t'',
        ap (λ l. l ++ (run o ms s').0) sent
            ∙ ap (λ l. all_sent o first ++ l) sent'
            ∙ sym (all_sent-append o first rest),
        λ k.
            ap (λ l. l ++ pending k (run o ms s').1) (taken_for-append k first rest)
            ∙ append_assoc (taken_for k first) (taken_for k rest) (pending k (run o ms s').1)
            ∙ ap (λ l. taken_for k first ++ l) (held' k)
            ∙ sym (append_assoc (taken_for k first) (pending k s') (published k ms))
            ∙ ap (λ l. l ++ published k ms) (held k)
            ∙ append_assoc (pending k s) (published k (m ∷ [])) (published k ms)
            ∙ ap (λ l. pending k s ++ l) (sym (published-first k m ms)),
      )

  -- Whatever the order of the events and of the timers, what was sent is what is sent for the groups
  -- that the timers took; the events of an order and a transaction in these groups, followed by
  -- those that still wait, are the published ones, each once and in their order; and no group waits
  -- without a timer.
  pub run_gathers :
      (ms : List Move)
      → let s = (run o ms start).1 in
        ((run o ms start).0 ≡ all_sent o (batches o ms start))
        × ((k : Key) → taken_for k (batches o ms start) ++ pending k s ≡ published k ms)
        × ((k : Key) → has_timer k s ≡ false → group_of k s.groups ≡ none)
  run_gathers ms = let (t, sent, held) = run-Complete ms start λ k h. refl in (sent, held, t)

  ended :
      (k k' : Key) (s : State)
      → has_timer k (moved o (timer_ends k') s).1 ≡ (has_timer k s && not (same_key k' k))
  unfolding send_grouped_notification
  ended k k' s = elim (Bool-cases (has_timer k' s)) [
    | inl e ↦
        ap
          (λ b.
            has_timer k
              (if b then closed o k' (group_of k' s.groups) (stop_timer k' s) else ([], s)).1)
          e
        ∙ after (group_of k' s.groups)
        ∙ has_timer-stop_timer k k' s.timers
    | inr e ↦
        ap
          (λ b.
            has_timer k
              (if b then closed o k' (group_of k' s.groups) (stop_timer k' s) else ([], s)).1)
          e
        ∙ elim (Bool-cases (same_key k' k)) [
          | inl same ↦
              let off : has_timer k s ≡ false =
                ap (λ x. has_timer x s) (sym (same_key-eq k' k same)) ∙ e in
              ground arith
          | inr other ↦ ground arith
        ]
  ]
    where
      after :
          (f : Option (List Event))
          → has_timer k (closed o k' f (stop_timer k' s)).1 ≡ has_timer k (stop_timer k' s)
      after none = refl
      after (some es) = refl

  all_ended :
      (k : Key) (l : List Key) (s : State)
      → has_timer k (run o (map timer_ends l) s).1
        ≡ (has_timer k s && not (any (λ t. same_key t k) l))
  unfolding run
  all_ended k [] s = ground arith
  all_ended k (k' ∷ l) s = ground (arith, all_ended k l (moved o (timer_ends k') s).1, ended k k' s)

  -- Once the timers that run have ended, the groups that were taken hold every event that was ever
  -- published with a transaction, each once and in its order, and what is sent for them has been sent.
  pub timers_flush :
      (ms : List Move) (k : Key)
      → let s = (run o ms start).1 in
        let last = map timer_ends s.timers in
        (taken_for k (batches o ms start) ++ taken_for k (batches o last s) ≡ published k ms)
        × ((run o last s).0 ≡ all_sent o (batches o last s))
        × (group_of k (run o last s).1.groups ≡ none)
  timers_flush ms k =
      let s = (run o ms start).1 in
      let last = map timer_ends s.timers in
      let (t, sent, held) = run-Complete ms start λ k h. refl in
      let (t', sent', held') = run-Complete last s t in
      let gone = t' k (all_ended k s.timers s ∙ contradicts (has_timer k s)) in
      let rest : taken_for k (batches o last s) ≡ pending k s = ground (
        arith,
        held' k,
        gone,
        published-timers k s.timers,
        append-nil (taken_for k (batches o last s)),
        append-nil (pending k s),
      ) in
      (ap (λ l. taken_for k (batches o ms start) ++ l) rest ∙ held k, sent', gone)
