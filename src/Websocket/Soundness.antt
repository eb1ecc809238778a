-- ===== src/Websocket/Soundness.antt =====
-- While the hub runs, the map of users lists the registered clients, and their channels are open.
use request_system.Common.{
  ℕ, String, Bool, true, false, not, ◌&&◌, ◌||◌, Option, none, some, List, [], ◌∷◌, ◌++◌,
  if◌then◌else◌, ◌==◌, ◌≡◌, refl, sym, ◌∙◌, ap, subst, arith, inl, inr, Bool-cases,
}
use request_system.Errors.{panic, Result, ok, err}
use request_system.Websocket.{
  Channel, Hub, has, or_empty, put, offered, remove_first, remove_all, unless_empty, new_hub,
  clients_of, register, unregister, deliver, deliver_to, taken, send_message_to_user, write_next,
}

abbrev Once : List ℕ → Type 0
Once [] = Unit {0}
Once (c ∷ l) = (has c l ≡ false) × Once l

has-append : (d c : ℕ) (l : List ℕ) → has d (l ++ (c ∷ [])) ≡ (has d l || c == d)
has-append d c [] = ground arith
has-append d c (x ∷ l) = ground (arith, has-append d c l)

Once-append : (c : ℕ) (l : List ℕ) → has c l ≡ false → Once l → Once (l ++ (c ∷ []))
Once-append c [] h o = (refl, tt)
Once-append c (x ∷ l) h o = (ground (arith, has-append x c l), Once-append c l (ground arith) o.1)

has-remove_all : (d c : ℕ) (l : List ℕ) → has d (remove_all c l) ≡ (has d l && not (d == c))
has-remove_all d c [] = refl
has-remove_all d c (x ∷ l) = ground (arith, has-remove_all d c l)

has-remove_first :
    (d c : ℕ) (l : List ℕ) → Once l → has d (remove_first c l) ≡ (has d l && not (d == c))
has-remove_first d c [] o = refl
has-remove_first d c (x ∷ l) o = ground (arith, has-remove_first d c l o.1)

Once-remove_first : (c : ℕ) (l : List ℕ) → Once l → Once (remove_first c l)
Once-remove_first c [] o = tt
Once-remove_first c (x ∷ l) o = elim (Bool-cases (x == c)) [
  | inl e ↦ rw e o.1
  | inr e ↦ rw e (ground (arith, has-remove_first x c l o.1), Once-remove_first c l o.1)
]

has-unless_empty : (d : ℕ) (l : List ℕ) → has d (or_empty (unless_empty l)) ≡ has d l
has-unless_empty d [] = refl
has-unless_empty d (x ∷ l) = refl

Once-unless_empty : (l : List ℕ) → Once l → Once (or_empty (unless_empty l))
Once-unless_empty [] o = tt
Once-unless_empty (x ∷ l) o = o

pub shut-offered : (m : String) (ch : Channel) → (offered m ch).shut ≡ ch.shut
shut-offered m ch = ground arith

if-false : {A : Type 0} (b : Bool) (x y : A) → b ≡ false → y ≡ (if b then x else y)
if-false true x y h = cc
if-false false x y h = refl

Once-if :
    (b : Bool) (x y : Option (List ℕ))
    → Once (or_empty x)
    → Once (or_empty y)
    → Once (or_empty (if b then x else y))
Once-if true x y o o' = o
Once-if false x y o o' = o'

-- Each channel of the list got the text, where it had room, and nothing else of the hub changed.
abbrev pub Sent : String → List ℕ → Hub → Result (Unit {0}) × Hub → Type 0
Sent m cs h r =
    (r.0 ≡ ok tt)
    × ((n : ℕ) → r.1.channels n ≡ (if has n cs then offered m (h.channels n) else h.channels n))
    × (r.1.clients ≡ h.clients)
    × (r.1.user_clients ≡ h.user_clients)

deliver-Sent :
    (m : String) (cs : List ℕ) (h : Hub)
    → Once cs
    → ((c : ℕ) → has c cs ≡ true → (h.channels c).shut ≡ false)
    → Sent m cs h (deliver m cs h)
unfolding deliver
deliver-Sent m [] h o all_open = (refl, λ n. refl, refl, refl)
deliver-Sent m (c ∷ cs) h o all_open =
    let h' : Hub = record h { channels = put c (offered m (h.channels c)) h.channels } in
    let (done, sent, same, listed) =
      deliver-Sent m cs h' o.1
        λ d e. ground (arith, all_open d (ground arith), shut-offered m (h.channels c)) in
    subst (Sent m (c ∷ cs) h)
      (if-false (h.channels c).shut (err panic, h) (deliver m cs h') (all_open c (ground arith)))
      (done, λ n. ground (arith, sent n), same, listed)

deliver_to-Sent :
    (m : String) (found : Option (List ℕ)) (h : Hub)
    → Once (or_empty found)
    → ((c : ℕ) → has c (or_empty found) ≡ true → (h.channels c).shut ≡ false)
    → Sent m (or_empty found) h (deliver_to m found h)
deliver_to-Sent m none h o all_open = (refl, λ n. refl, refl, refl)
deliver_to-Sent m (some cs) h o all_open = deliver-Sent m cs h o all_open

module _ (user_of : ℕ → ℕ) where
  -- The invariant of the hub.
  pub record IsSound (h : Hub) : Type 0 where
    pub all_open : (c : ℕ) → has c h.clients ≡ true → (h.channels c).shut ≡ false
    pub indexed : (u c : ℕ) → has c (clients_of h u) ≡ (has c h.clients && user_of c == u)
    pub once : (u : ℕ) → Once (clients_of h u)

  new_hub-IsSound : IsSound new_hub
  new_hub-IsSound = record { all_open = λ c e. cc; indexed = λ u c. refl; once = λ u. tt }

  sends :
      (h : Hub) (u : ℕ) (m : String)
      → IsSound h
      → Sent m (clients_of h u) h (send_message_to_user u (ok m) h)
  unfolding send_message_to_user
  sends h u m s =
      deliver_to-Sent m (h.user_clients u) h (s.once u)
        λ c e. s.all_open c (ground (arith, s.indexed u c))

  Sent-IsSound :
      (m : String) (cs : List ℕ) (h : Hub) (r : Result (Unit {0}) × Hub)
      → Sent m cs h r
      → IsSound h
      → IsSound r.1
  Sent-IsSound m cs h r (done, sent, same, listed) s =
      let kept : (u : ℕ) → clients_of h u ≡ clients_of r.1 u =
        λ u. ap (λ (f : ℕ → Option (List ℕ)). or_empty (f u)) (sym listed) in
      record {
        all_open = λ c e.
            let e' : has c h.clients ≡ true = ap (has c) (sym same) ∙ e in
            ground (arith, sent c, s.all_open c e', shut-offered m (h.channels c));
        indexed = λ u c.
            ap (has c) (sym (kept u))
            ∙ s.indexed u c
            ∙ ap (λ l. has c l && user_of c == u) (sym same);
        once = λ u. subst Once (kept u) (s.once u);
      }

  -- What can happen to a hub that runs: `Run` takes a client that was just made, or one that its
  -- reader gives back, a text is sent, a writer takes one.
  pub data Step : Hub → Hub → Type 0 where
    registered :
        (h : Hub) (c : ℕ)
        → has c h.clients ≡ false
        → (h.channels c).shut ≡ false
        → Step h (register user_of c h)
    unregistered : (h : Hub) (c : ℕ) → Step h (unregister user_of c h)
    sent : (h : Hub) (u : ℕ) (m : Result String) → Step h (send_message_to_user u m h).1
    written : (h : Hub) (c : ℕ) → Step h (write_next c h)

  register-IsSound :
      (h : Hub) (c : ℕ)
      → has c h.clients ≡ false
      → (h.channels c).shut ≡ false
      → IsSound h
      → IsSound (register user_of c h)
  unfolding register
  register-IsSound h c new open_one s = record {
    all_open = λ d e. ground (arith, s.all_open d);
    indexed = λ u d.
        ground (
          arith,
          has-append d c (clients_of h (user_of c)),
          s.indexed u d,
          s.indexed (user_of c) d,
        );
    once = λ u.
        Once-if (u == user_of c) _ _
          (Once-append c _ (ground (arith, s.indexed (user_of c) c)) (s.once (user_of c)))
          (s.once u);
  }

  unregister-IsSound : (h : Hub) (c : ℕ) → IsSound h → IsSound (unregister user_of c h)
  unfolding unregister
  unregister-IsSound h c s = elim (Bool-cases (has c h.clients)) [
    | inl e ↦ rw e (record {
      all_open = λ d e'. ground (arith, has-remove_all d c h.clients, s.all_open d);
      indexed = λ u d. ground (
        arith,
        has-unless_empty d (remove_first c (clients_of h (user_of c))),
        has-remove_first d c (clients_of h (user_of c)) (s.once (user_of c)),
        has-remove_all d c h.clients,
        s.indexed u d,
        s.indexed (user_of c) d,
      );
      once = λ u.
          Once-if (u == user_of c) _ _
            (Once-unless_empty _ (Once-remove_first c _ (s.once (user_of c)))) (s.once u);
    })
    | inr e ↦ rw e s
  ]

  send-IsSound :
      (h : Hub) (u : ℕ) (m : Result String) → IsSound h → IsSound (send_message_to_user u m h).1
  unfolding send_message_to_user
  send-IsSound h u (err e) s = s
  send-IsSound h u (ok m) s = Sent-IsSound m (clients_of h u) h _ (sends h u m s) s

  taken-IsSound : (c : ℕ) (queue : List String) (h : Hub) → IsSound h → IsSound (taken c queue h)
  taken-IsSound c [] h s = s
  taken-IsSound c (m ∷ rest) h s = record {
    all_open = λ d e. ground (arith, s.all_open d e);
    indexed = s.indexed;
    once = s.once;
  }

  write_next-IsSound : (h : Hub) (c : ℕ) → IsSound h → IsSound (write_next c h)
  unfolding write_next
  write_next-IsSound h c s = taken-IsSound c (h.channels c).queue h s

  Step-IsSound : {h h' : Hub} → Step h h' → IsSound h → IsSound h'
  Step-IsSound (registered h c new fresh) s = register-IsSound h c new fresh s
  Step-IsSound (unregistered h c) s = unregister-IsSound h c s
  Step-IsSound (sent h u m) s = send-IsSound h u m s
  Step-IsSound (written h c) s = write_next-IsSound h c s

  pub data Reachable : Hub → Type 0 where
    start : Reachable new_hub
    then_step : {h h' : Hub} → Reachable h → Step h h' → Reachable h'

  -- In each hub that is reached from the new one by registrations of new clients, unregistrations,
  -- texts sent and texts written, the list of a user holds the registered clients of that user, each
  -- once, and their channels are open.
  pub Reachable-IsSound : (h : Hub) → Reachable h → IsSound h
  Reachable-IsSound h start = new_hub-IsSound
  Reachable-IsSound h (then_step r step) = Step-IsSound step (Reachable-IsSound _ r)

  -- In each such hub a text that is sent to a user puts no one in panic: it is added to the channel of
  -- each registered client of that user whose buffer has room, and every other channel stays as it is.
  pub send_message_to_user_sound :
      (h : Hub) (u : ℕ) (m : String)
      → Reachable h
      → ((send_message_to_user u (ok m) h).0 ≡ ok tt)
        × ((n : ℕ)
            → (send_message_to_user u (ok m) h).1.channels n ≡ (
                if has n h.clients && user_of n == u
                then offered m (h.channels n)
                else h.channels n))
  send_message_to_user_sound h u m r =
      let s = Reachable-IsSound h r in
      let (done, gets, same, listed) = sends h u m s in
      (
        done,
        λ n.
            gets n ∙ ap (λ b. if b then offered m (h.channels n) else h.channels n) (s.indexed u n),
      )
