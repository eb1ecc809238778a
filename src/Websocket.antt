-- ===== src/Websocket.antt =====
-- pkg/websocket/hub.go and client.go: who is connected, and what waits to be sent to whom. A client
-- is its address; `user_of` is its field UserID, which never changes. Logging and the connection
-- itself are left out, and so is the channel broadcast, on which nothing sends.
pub mod Soundness
pub mod Shutdown
use request_system.Common.{
  ℕ, String, Bool, true, false, not, Option, none, some, List, [], ◌∷◌, ◌++◌, if◌then◌else◌, ◌==◌,
  ltb, any, select, length,
}
use request_system.Errors.{Error, panic, Result, ok, err}

-- The channel Send: its buffer, and whether it is closed.
pub record Channel : Type 0 where
  pub queue : List String
  pub shut : Bool

-- `Hub`, with the channels of the clients beside it.
pub record Hub : Type 0 where
  pub clients : List ℕ
  pub user_clients : ℕ → Option (List ℕ)
  pub channels : ℕ → Channel

abbrev pub has : ℕ → List ℕ → Bool
has c = any λ d. d == c

abbrev pub or_empty : Option (List ℕ) → List ℕ
or_empty none = []
or_empty (some l) = l

abbrev pub put : {A : Type 0} → ℕ → A → (ℕ → A) → ℕ → A
put k v m x = if x == k then v else m x

-- Sending on a channel that is open, or skipping where its 256 places are taken.
abbrev pub offered : String → Channel → Channel
offered m ch = if ltb (length ch.queue) 256 then record ch { queue = ch.queue ++ (m ∷ []) } else ch

abbrev pub closed : Channel → Channel
closed ch = record ch { shut = true }

abbrev pub remove_first : ℕ → List ℕ → List ℕ
remove_first c [] = []
remove_first c (d ∷ l) = let rest = d ∷ remove_first c l in if d == c then l else rest

abbrev pub unless_empty : List ℕ → Option (List ℕ)
unless_empty [] = none
unless_empty (c ∷ l) = some (c ∷ l)

abbrev pub remove_all : ℕ → List ℕ → List ℕ
remove_all c = select λ d. not (d == c)

-- `NewHub`.
abbrev pub new_hub : Hub
new_hub = record {
  clients = [];
  user_clients = λ u. none;
  channels = λ c. record { queue = []; shut = false };
}

abbrev pub clients_of : Hub → ℕ → List ℕ
clients_of h u = or_empty (h.user_clients u)

module _ (user_of : ℕ → ℕ) where
  -- `case client := <-h.Register`.
  unfoldable pub register : ℕ → Hub → Hub
  register c h = record h {
    clients = if has c h.clients then h.clients else c ∷ h.clients;
    user_clients = put (user_of c) (some (clients_of h (user_of c) ++ (c ∷ []))) h.user_clients;
  }

  -- `case client := <-h.unregister`.
  unfoldable pub unregister : ℕ → Hub → Hub
  unregister c h =
      if has c h.clients
      then record h {
        clients = remove_all c h.clients;
        channels = put c (closed (h.channels c)) h.channels;
        user_clients =
            put (user_of c) (unless_empty (remove_first c (clients_of h (user_of c))))
              h.user_clients;
      }
      else h

-- `case <-ctx.Done()`: every client's channel is closed, and the map of users stays.
unfoldable pub stop : Hub → Hub
stop h = record h {
  clients = [];
  channels = λ c. if has c h.clients then closed (h.channels c) else h.channels c;
}

-- The loop of `SendMessageToUser` over the copy of the user's clients. Sending on a closed channel
-- panics.
unfoldable pub deliver : String → List ℕ → Hub → Result (Unit {0}) × Hub
deliver m [] h = (ok tt, h)
deliver m (c ∷ cs) h =
    let rest = deliver m cs (record h { channels = put c (offered m (h.channels c)) h.channels }) in
    if (h.channels c).shut then (err panic, h) else rest

-- `none`: nobody of the user is connected.
abbrev pub deliver_to : String → Option (List ℕ) → Hub → Result (Unit {0}) × Hub
deliver_to m none h = (ok tt, h)
deliver_to m (some cs) h = deliver m cs h

-- `SendMessageToUser`, where `json.Marshal` gave a text or an error.
unfoldable pub send_message_to_user : ℕ → Result String → Hub → Result (Unit {0}) × Hub
unfolding deliver
send_message_to_user u (err e) h = (err e, h)
send_message_to_user u (ok m) h = deliver_to m (h.user_clients u) h

abbrev pub taken : ℕ → List String → Hub → Hub
taken c [] h = h
taken c (m ∷ rest) h = record h {
  channels = put c (record (h.channels c) { queue = rest }) h.channels;
}

-- `WritePump` takes the first text of a channel.
unfoldable pub write_next : ℕ → Hub → Hub
write_next c h = taken c (h.channels c).queue h
