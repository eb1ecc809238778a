-- ===== src/Notices/Chats.antt =====
-- Which of the two ways a recipient is told by, in internal/listeners/notification_listener.go.
use Prim.Native.String.{◌++◌ as concat}
use text.Mathlib.TextLemmas.{nil-append, cons-append}
use request_system.Common.{
  ℕ, String, false, Option, none, some, List, [], ◌∷◌, if◌then◌else◌, ◌≡◌, ◌≢◌, refl, ◌∙◌, ap,
  arith, is_empty,
}
use request_system.Entities.{Order}
use request_system.Notices.{Person, Event, Outside}
use request_system.Notices.Texts.{
  Details, printed, message_of, collected, nothing_yet, format_grouped_message,
}
use request_system.Notices.Payload.{Payload, payload_of, format_web_socket_payload}
use request_system.Notices.Delivery.{to_telegram, to_web_socket, to_chat, notify}

concat-nonempty : (a b : String) → is_empty b ≡ false → is_empty (concat a b) ≡ false
concat-nonempty String.[] b h = ap is_empty (nil-append b) ∙ h
concat-nonempty (String.◌∷◌ c s) b h = ap is_empty (cons-append c s b)

module _ (o : Outside) where
  -- Whatever is collected, the message ends in a link.
  printed-nonempty :
      (actor : Person) (order : Order) (d : Details) → is_empty (printed o actor order d) ≡ false
  unfolding format_grouped_message
  printed-nonempty actor order d = concat-nonempty _ "/order?participant=me)" refl

  message-nonempty :
      (e : Event) (es : List Event) (user actor : Person) (order : Order)
      → e.actor ≡ some actor
      → e.order ≡ some order
      → is_empty (format_grouped_message o (e ∷ es) user) ≡ false
  unfolding format_grouped_message
  message-nonempty e es user actor order acts carries =
      ap (λ a. is_empty (message_of o a e.order user (e ∷ es))) acts
      ∙ ap (λ b. is_empty (message_of o (some actor) b user (e ∷ es))) carries
      ∙ printed-nonempty actor order (collected o user actor order (e ∷ es) (nothing_yet o))

  payload_given :
      (e : Event) (es : List Event) (user actor : Person) (order : Order)
      → e.actor ≡ some actor
      → e.order ≡ some order
      → (payload : Payload) × (format_web_socket_payload o (e ∷ es) user ≡ some payload)
  unfolding format_web_socket_payload
  payload_given e es user actor order acts carries = (
    _,
    ap (λ a. payload_of o a e.order e.item.created_at user (e ∷ es)) acts
        ∙ ap (λ b. payload_of o (some actor) b e.item.created_at user (e ∷ es)) carries,
  )

  notified :
      (es : List Event) (user : Person)
      → is_empty (format_grouped_message o es user) ≡ false
      → notify o es user
        ≡ to_chat user.id user.telegram_chat_id
            (format_grouped_message o es user)
            (format_web_socket_payload o es user)
  unfolding notify
  notified es user h =
      let deliveries =
        to_chat user.id user.telegram_chat_id (format_grouped_message o es user)
          (format_web_socket_payload o es user) in
      ap (λ b. if b then [] else deliveries) h

  in_chat :
      (user chat : ℕ) (message : String) (payload : Payload)
      → chat ≢ 0
      → to_chat user (some chat) message (some payload)
        ≡ to_telegram chat message ∷ to_web_socket user payload ∷ []
  in_chat user chat message payload h = ground arith

  -- A group whose first event carries its actor and its order reaches a recipient by both ways, or by
  -- neither: a chat of Telegram other than 0 gets the message and then the web socket of the same user
  -- the payload; without a chat, or with the chat 0, nothing is sent, by the web socket either.
  pub notify_by_chat :
      (e : Event) (es : List Event) (user actor : Person) (order : Order)
      → e.actor ≡ some actor
      → e.order ≡ some order
      → ((chat : ℕ)
          → chat ≢ 0
          → user.telegram_chat_id ≡ some chat
          → (payload : Payload) × (format_web_socket_payload o (e ∷ es) user ≡ some payload)
            × (notify o (e ∷ es) user
                ≡ to_telegram chat (format_grouped_message o (e ∷ es) user)
                  ∷ to_web_socket user.id payload
                  ∷ []))
        × (user.telegram_chat_id ≡ none → notify o (e ∷ es) user ≡ [])
        × (user.telegram_chat_id ≡ some 0 → notify o (e ∷ es) user ≡ [])
  notify_by_chat e es user actor order acts carries =
      let message = format_grouped_message o (e ∷ es) user in
      let (payload, some_payload) = payload_given e es user actor order acts carries in
      let chosen : (chat : Option ℕ)
          → user.telegram_chat_id ≡ chat
          → notify o (e ∷ es) user ≡ to_chat user.id chat message (some payload) =
        λ chat h.
          notified (e ∷ es) user (message-nonempty e es user actor order acts carries)
          ∙ ap (λ c. to_chat user.id c message (format_web_socket_payload o (e ∷ es) user)) h
          ∙ ap (to_chat user.id chat message) some_payload in
      (
        λ chat nonzero h. (
          payload,
          some_payload,
          chosen (some chat) h ∙ in_chat user.id chat message payload nonzero,
        ),
        λ h. chosen none h,
        λ h. chosen (some 0) h,
      )
