-- ===== src/Notices/Payload.antt =====
-- `formatWebSocketPayload` of internal/listeners/notification_listener.go. The random EventID is
-- left out, and so are Type and IsRead, which are constants.
use request_system.Common.{
  String, Bool, false, Option, none, some, List, [], ◌∷◌, ◌++◌, if◌then◌else◌, ◌==◌, parse_uint,
  format_uint,
}
use request_system.Entities.{
  Order, Attachment, EventType, Time, create, comment, duration_change, delegation, status_change,
  priority_change, attachment_add, same_event,
}
use request_system.Notices.{Person, Event, Outside}
use request_system.Notices.Texts.{◌⧺◌, text_of, of_id, latest, new_executor}

pub record Payload : Type 0 where
  pub actor_name : String
  pub avatar_url : Option String
  pub message : String
  pub changes : List (EventType × String)
  pub primary : String
  pub attachment : Option String
  pub created_at : Time

module _ (o : Outside) where
  abbrev headline : String → Person → Order → String
  headline verb actor order =
      "<strong>"
      ⧺ actor.fio
      ⧺ "</strong>"
      ⧺ verb
      ⧺ order.name
      ⧺ " №"
      ⧺ format_uint order.id
      ⧺ "</strong>"

  abbrev is_creation : List Event → Bool
  is_creation (e ∷ []) = same_event e.item.event_type create
  is_creation _ = false

  abbrev change : EventType → String → Option String → String → List (EventType × String)
  change kind before none after = []
  change kind before (some s) after = (kind, before ⧺ s ⧺ after) ∷ []

  abbrev executor_change : Person → Option Person → List (EventType × String)
  executor_change recipient none = []
  executor_change recipient (some p) =
      (
        delegation,
        if p.id == recipient.id
            then "Заявка назначена на <strong>Вас</strong>"
            else "Исполнитель: <strong>" ⧺ p.fio ⧺ "</strong>",
      )
      ∷ []

  abbrev attached : Option Attachment → List (EventType × String)
  attached none = []
  attached (some a) = (attachment_add, "Прикреплен файл: " ⧺ a.file_name) ∷ []

  -- What the switch appends for one event.
  abbrev changes_of : Person → Event → EventType → List (EventType × String)
  changes_of recipient e status_change =
      change status_change "Статус: <strong>"
        (of_id o.statuses (parse_uint (text_of e.item.new_value))) "</strong>"
  changes_of recipient e priority_change =
      change priority_change "Приоритет: <strong>"
        (of_id o.priorities (parse_uint (text_of e.item.new_value))) "</strong>"
  changes_of recipient e comment = change comment "Комментарий: \"" e.item.comment "\""
  changes_of recipient e delegation =
      executor_change recipient (of_id (new_executor o) (parse_uint (text_of e.item.new_value)))
  changes_of recipient e duration_change =
      change duration_change "Срок выполнения: <strong>" (o.due_text (text_of e.item.new_value))
        "</strong>"
  changes_of recipient e attachment_add = attached e.attachment
  changes_of recipient e _ = []

  abbrev all_changes : Person → List Event → List (EventType × String)
  all_changes recipient [] = []
  all_changes recipient (e ∷ es) =
      changes_of recipient e e.item.event_type ++ all_changes recipient es

  abbrev link_of : EventType → Option Attachment → Option String
  link_of attachment_add (some a) = some ("/uploads/" ⧺ a.file_path)
  link_of _ _ = none

  abbrev last_link : List Event → Option String → Option String
  last_link [] link = link
  last_link (e ∷ es) link = last_link es (latest (link_of e.item.event_type e.attachment) link)

  abbrev pub payload_of : Option Person → Option Order → Time → Person → List Event → Option Payload
  payload_of (some actor) (some order) created_at recipient es = some record {
    actor_name = actor.fio;
    avatar_url = actor.photo_url;
    message =
        if is_creation es
        then headline " создал(а) новую заявку <strong>" actor order
        else headline " обновил(а) заявку <strong>" actor order;
    changes = all_changes recipient es;
    primary = "/orders/" ⧺ format_uint order.id;
    attachment = last_link es none;
    created_at = created_at;
  }
  payload_of _ _ created_at recipient es = none

  -- An error and a nil payload alike mean that nothing is sent.
  unfoldable pub format_web_socket_payload : List Event → Person → Option Payload
  unfolding new_executor format_uint parse_uint
  format_web_socket_payload [] recipient = none
  format_web_socket_payload (e ∷ es) recipient =
      payload_of e.actor e.order e.item.created_at recipient (e ∷ es)
