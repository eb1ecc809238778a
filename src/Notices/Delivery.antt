-- ===== src/Notices/Delivery.antt =====
-- What a timer sends: `sendGroupedNotification` of internal/listeners/notification_listener.go.
-- An error of either service is logged and nothing else.
use request_system.Common.{
  ℕ, String, Option, none, some, List, [], ◌∷◌, ◌++◌, if◌then◌else◌, ◌==◌, is_empty,
}
use request_system.Notices.{
  Person, Event, Key, State, Outside, group_of, without, sort_events, determine_recipients,
}
use request_system.Notices.Texts.{format_grouped_message}
use request_system.Notices.Payload.{Payload, format_web_socket_payload}

pub data Delivery : Type 0 where
  to_telegram : ℕ → String → Delivery
  to_web_socket : ℕ → Payload → Delivery

abbrev pub pushed : ℕ → Option Payload → List Delivery
pushed user none = []
pushed user (some p) = to_web_socket user p ∷ []

abbrev pub to_chat : ℕ → Option ℕ → String → Option Payload → List Delivery
to_chat user none message payload = []
to_chat user (some chat) message payload =
    if chat == 0 then [] else to_telegram chat message ∷ pushed user payload

module _ (o : Outside) where
  -- The body of the loop over the recipients.
  unfoldable pub notify : List Event → Person → List Delivery
  unfolding format_grouped_message format_web_socket_payload
  notify es user =
      let message = format_grouped_message o es user in
      if is_empty message
      then []
      else to_chat user.id user.telegram_chat_id message (format_web_socket_payload o es user)

  abbrev pub notify_all : List Event → List Person → List Delivery
  notify_all es [] = []
  notify_all es (user ∷ users) = notify es user ++ notify_all es users

  abbrev to_recipients : List Event → Option (List Person) → List Delivery
  to_recipients es none = []
  to_recipients es (some users) = notify_all es users

  abbrev pub sent_for : List Event → List Delivery
  sent_for [] = []
  sent_for (e ∷ es) =
      let sorted = sort_events (e ∷ es) in to_recipients sorted (determine_recipients o sorted)

  abbrev pub closed : Key → Option (List Event) → State → List Delivery × State
  closed k none s = ([], s)
  closed k (some es) s = (sent_for es, record s { groups = without k s.groups })

  -- `sendGroupedNotification`.
  unfoldable pub send_grouped_notification : Key → State → List Delivery × State
  unfolding notify sort_events determine_recipients
  send_grouped_notification k s = closed k (group_of k s.groups) s
