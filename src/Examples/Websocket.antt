-- ===== src/Examples/Websocket.antt =====
-- The theorems on the hub of the web sockets, applied.
use request_system.Common.{ℕ, true, ◌&&◌, if◌then◌else◌, ◌==◌, ◌≡◌, refl}
use request_system.Errors.{panic, ok, err}
use request_system.Websocket.{
  Hub, has, offered, new_hub, clients_of, register, unregister, stop, deliver, send_message_to_user,
}
use request_system.Websocket.Soundness.{
  IsSound, registered, Reachable, start, then_step, Reachable-IsSound, send_message_to_user_sound,
}
use request_system.Websocket.Shutdown.{send_message_to_user-stop, deliver-unregister}

-- Clients 1 and 2 are user 7's, each other one is user 8's.
abbrev user_of : ℕ → ℕ
user_of c = if c == 1 then 7 else if c == 2 then 7 else 8

abbrev one_client : Hub
one_client = register user_of 1 new_hub

abbrev two_clients : Hub
two_clients = register user_of 2 one_client

one_there : Reachable user_of one_client
one_there = then_step start (registered new_hub 1 refl refl)

two_there : Reachable user_of two_clients
unfolding register
two_there = then_step one_there (registered one_client 2 refl refl)

Reachable-IsSound_example : IsSound user_of two_clients
Reachable-IsSound_example = Reachable-IsSound user_of two_clients two_there

send_message_to_user_sound_example :
    ((send_message_to_user 7 (ok "hello") two_clients).0 ≡ ok tt)
    × ((n : ℕ)
        → (send_message_to_user 7 (ok "hello") two_clients).1.channels n ≡ (
            if has n two_clients.clients && user_of n == 7
            then offered "hello" (two_clients.channels n)
            else two_clients.channels n))
send_message_to_user_sound_example =
    send_message_to_user_sound user_of two_clients 7 "hello" two_there

connected : has 2 two_clients.clients ≡ true
unfolding register
connected = refl

send_message_to_user-stop_example :
    (send_message_to_user 7 (ok "hello") (stop two_clients)).0 ≡ err panic
send_message_to_user-stop_example =
    send_message_to_user-stop user_of two_clients 2 "hello" two_there connected

deliver-unregister_example :
    (deliver "hello" (clients_of two_clients 7) (unregister user_of 2 two_clients)).0 ≡ err panic
deliver-unregister_example = deliver-unregister user_of two_clients 2 "hello" two_there connected
