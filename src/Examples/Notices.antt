-- ===== src/Examples/Notices.antt =====
-- A creation, a comment and a delegation, and the theorems on notifications applied to them.
use request_system.Common.{
  ℕ, true, false, none, some, List, [], ◌∷◌, ◌++◌, map, ◌≡◌, ◌≢◌, ◌↔◌, refl, In,
}
use request_system.Entities.{HistoryItem, EventType, create, comment, delegation}
use request_system.Notices.{Person, Event, Key, Outside, group_of, determine_recipients}
use request_system.Notices.Texts.{format_grouped_message}
use request_system.Notices.Payload.{Payload, format_web_socket_payload}
use request_system.Notices.Delivery.{to_telegram, to_web_socket, notify}
use request_system.Notices.Groups.{
  Move, happened, timer_ends, has_timer, start, run, batches, pending, published, taken_for,
  all_sent,
}
use request_system.Notices.Complete.{run_gathers, timers_flush}
use request_system.Notices.Recipients.{is_concerned, is_actor, determine_recipients_iff}
use request_system.Notices.Chats.{notify_by_chat}
use request_system.Examples.{printer, at_second}

abbrev alice : Person
alice = record { id = 7; fio = "Alice A."; photo_url = none; telegram_chat_id = some 70 }

abbrev bob : Person
bob = record { id = 8; fio = "Bob"; photo_url = none; telegram_chat_id = some 80 }

abbrev carol : Person
carol = record { id = 9; fio = "Carol"; photo_url = none; telegram_chat_id = none }

abbrev outside : Outside
outside = record {
  users = alice ∷ bob ∷ carol ∷ [];
  reads_fail = false;
  statuses = λ id. none;
  priorities = λ id. none;
  due_text = λ s. none;
  frontend_url = "https://f";
  server_url = "https://s";
}

abbrev item : EventType → ℕ → HistoryItem
item kind second = record {
  order_id = 1;
  user_id = 7;
  event_type = kind;
  old_value = none;
  new_value = none;
  comment = none;
  attachment_id = none;
  tx_id = some 3;
  created_at = at_second second;
  creator_fio = none;
  delegator_fio = none;
  executor_fio = none;
}

abbrev event : HistoryItem → Event
event i = record { item = i; attachment = none; order = some printer; actor = some alice }

abbrev created : Event
created = event (item create 1)

abbrev said : Event
said = event (record (item comment 2) { comment = some "Hi!" })

-- The order goes from Carol to Bob.
abbrev handed : Event
handed = event (record (item delegation 3) { old_value = some "9"; new_value = some "8" })

abbrev moves : List Move
moves = happened created ∷ happened handed ∷ timer_ends (1, 3) ∷ happened said ∷ []

run_gathers_example :
    let s = (run outside moves start).1 in
    ((run outside moves start).0 ≡ all_sent outside (batches outside moves start))
    × ((k : Key) → taken_for k (batches outside moves start) ++ pending k s ≡ published k moves)
    × ((k : Key) → has_timer k s ≡ false → group_of k s.groups ≡ none)
run_gathers_example = run_gathers outside moves

timers_flush_example :
    let s = (run outside moves start).1 in
    let last = map timer_ends s.timers in
    (taken_for (1, 3) (batches outside moves start) ++ taken_for (1, 3) (batches outside last s)
      ≡ published (1, 3) moves)
    × ((run outside last s).0 ≡ all_sent outside (batches outside last s))
    × (group_of (1, 3) (run outside last s).1.groups ≡ none)
timers_flush_example = timers_flush outside moves (1, 3)

determine_recipients_iff_example :
    (users : List Person) × (determine_recipients outside (created ∷ handed ∷ []) ≡ some users)
    × ((p : Person)
        → In p users ↔ (
            In p outside.users
            × (is_concerned printer (created ∷ handed ∷ []) p.id ≡ true)
            × (is_actor (some alice) p.id ≡ false)))
determine_recipients_iff_example =
    determine_recipients_iff outside created (handed ∷ []) printer refl refl

-- Bob, who has the order, and Carol, who lost it; not Alice, who did it.
recipients : determine_recipients outside (created ∷ handed ∷ []) ≡ some (bob ∷ carol ∷ [])
unfolding determine_recipients
recipients = refl

notify_by_chat_example :
    ((chat : ℕ)
      → chat ≢ 0
      → carol.telegram_chat_id ≡ some chat
      → (payload : Payload) × (format_web_socket_payload outside (handed ∷ []) carol ≡ some payload)
        × (notify outside (handed ∷ []) carol
            ≡ to_telegram chat (format_grouped_message outside (handed ∷ []) carol)
              ∷ to_web_socket 9 payload
              ∷ []))
    × (carol.telegram_chat_id ≡ none → notify outside (handed ∷ []) carol ≡ [])
    × (carol.telegram_chat_id ≡ some 0 → notify outside (handed ∷ []) carol ≡ [])
notify_by_chat_example = notify_by_chat outside handed [] carol alice printer refl refl

told :
    format_grouped_message outside (handed ∷ said ∷ []) bob
    ≡ "🔄 Alice A\\. обновил\\(а\\) заявку №1\n*Printer*\n\nИсполнитель: *Вам*\n\n`Hi\\!`\n\n[Посмотреть мои заявки](https://f/order?participant=me)"
unfolding format_grouped_message
told = refl
