-- ===== src/Websocket/Shutdown.antt =====
-- Where a text is sent to a channel that was closed in the meantime.
use request_system.Common.{
  ℕ, String, true, Option, none, some, List, [], ◌∷◌, ◌==◌, ◌≡◌, arith, Bool-cases, inl, inr,
}
use request_system.Errors.{panic, ok, err}
use request_system.Websocket.{
  Hub, has, or_empty, put, offered, clients_of, unregister, stop, deliver, deliver_to,
  send_message_to_user,
}
use request_system.Websocket.Soundness.{Reachable, Reachable-IsSound, shut-offered}

-- A closed channel in the list is met, whatever comes before it.
deliver-panic :
    (m : String) (c : ℕ) (cs : List ℕ) (h : Hub)
    → has c cs ≡ true
    → (h.channels c).shut ≡ true
    → (deliver m cs h).0 ≡ err panic
unfolding deliver
deliver-panic m c [] h listed shut = cc
deliver-panic m c (d ∷ cs) h listed shut =
    let h' : Hub = record h { channels = put d (offered m (h.channels d)) h.channels } in
    elim (Bool-cases (d == c)) [
      | inl e ↦ ground arith
      | inr e ↦
          let later =
            deliver-panic m c cs h' (ground arith)
              (ground (arith, shut-offered m (h.channels d))) in
          ground (arith, later)
    ]

deliver_to-panic :
    (m : String) (c : ℕ) (found : Option (List ℕ)) (h : Hub)
    → has c (or_empty found) ≡ true
    → (h.channels c).shut ≡ true
    → (deliver_to m found h).0 ≡ err panic
deliver_to-panic m c none h listed shut = cc
deliver_to-panic m c (some cs) h listed shut = deliver-panic m c cs h listed shut

module _ (user_of : ℕ → ℕ) (h : Hub) (c : ℕ) (m : String) where
  -- After the hub was stopped, a text for a user who was connected then makes the sender panic.
  pub send_message_to_user-stop :
      Reachable user_of h
      → has c h.clients ≡ true
      → (send_message_to_user (user_of c) (ok m) (stop h)).0 ≡ err panic
  unfolding send_message_to_user stop
  send_message_to_user-stop r connected =
      let s = Reachable-IsSound user_of h r in
      deliver_to-panic m c (h.user_clients (user_of c)) (stop h)
        (ground (arith, s.indexed (user_of c) c)) (ground arith)

  -- A client that leaves between the moment a text for its user copies the list of clients and the
  -- moment it is sent to them makes the sender panic.
  pub deliver-unregister :
      Reachable user_of h
      → has c h.clients ≡ true
      → (deliver m (clients_of h (user_of c)) (unregister user_of c h)).0 ≡ err panic
  unfolding unregister
  deliver-unregister r connected =
      let s = Reachable-IsSound user_of h r in
      deliver-panic m c (clients_of h (user_of c)) (unregister user_of c h)
        (ground (arith, s.indexed (user_of c) c)) (ground arith)
