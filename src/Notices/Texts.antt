-- ===== src/Notices/Texts.antt =====
-- The texts of a notification: `formatGroupedMessage` and `formatWebSocketPayload` of
-- internal/listeners/notification_listener.go.
use Prim.Native.Char.{code}
use Prim.Native.String.{◌++◌ as concat}
use request_system.Common.{
  ℕ, String, Option, none, some, List, [], ◌∷◌, ◌++◌, if◌then◌else◌, ◌==◌, any, find, is_empty,
  join, parse_uint, format_uint,
}
use request_system.Entities.{
  Order, Attachment, EventType, create, comment, duration_change, delegation, status_change,
  priority_change, attachment_add,
}
use request_system.Notices.{Person, Event, Outside}

infixl 45 ◌⧺◌
abbrev pub ◌⧺◌ : String → String → String
a ⧺ b = concat a b

-- The characters that MarkdownV2 reserves.
abbrev reserved : List ℕ
reserved =
    b'_' ∷ b'*' ∷ b'[' ∷ b']' ∷ b'(' ∷ b')' ∷ 92 ∷ b'~' ∷ 96 ∷ b'>' ∷ b'#' ∷ b'+' ∷ b'-' ∷ b'='
    ∷ b'|' ∷ b'{' ∷ b'}' ∷ b'.' ∷ b'!' ∷ []

-- `EscapeTextForMarkdownV2` of pkg/telegram/service.go.
unfoldable pub escape : String → String
escape String.[] = String.[]
escape (String.◌∷◌ c s) =
    let rest = escape s in
    if any (λ r. r == code c) reserved
    then String.◌∷◌ "\\" (String.◌∷◌ c rest)
    else String.◌∷◌ c rest

abbrev pub text_of : Option String → String
text_of none = ""
text_of (some s) = s

-- `status, _ := FindStatus(...)` and the like, of a value that is an id.
abbrev pub of_id {ℓ} : {A : Type ℓ} → (ℕ → Option A) → Option ℕ → Option A
of_id look none = none
of_id look (some id) = look id

-- What the switch collects, field by field; the last event of a sort wins.
pub record Details : Type 0 where
  pub main_action : String
  pub status : Option String
  pub priority : Option String
  pub assigned : Option String
  pub due : Option String
  pub comment : String
  pub attachment_text : String

abbrev pub latest {ℓ} : {A : Type ℓ} → Option A → Option A → Option A
latest none old = old
latest (some a) old = some a

module _ (o : Outside) where
  nobody : Person
  nobody = record { id = 0; fio = ""; photo_url = none; telegram_chat_id = none }

  abbrev person_or_nobody : Option Person → Person
  person_or_nobody none = nobody
  person_or_nobody (some p) = p

  -- `newExecutor, _ := FindUserByID(...)`: where the query finds no row it gives an empty user, and
  -- where it fails nil.
  unfoldable pub new_executor : ℕ → Option Person
  unfolding nobody
  new_executor id =
      if o.reads_fail then none else some (person_or_nobody (find (λ p. p.id == id) o.users))

  abbrev executor_text : Person → Option Person → Option String
  executor_text recipient none = none
  executor_text recipient (some p) = some (if p.id == recipient.id then "Вам" else escape p.fio)

  abbrev escaped : Option String → Option String
  escaped none = none
  escaped (some s) = some (escape s)

  abbrev attachment_line : Option Attachment → String → String
  attachment_line none old = old
  attachment_line (some a) old =
      "📎 Прикреплен файл: ["
      ⧺ escape a.file_name
      ⧺ "]("
      ⧺ o.server_url
      ⧺ "/uploads/"
      ⧺ a.file_path
      ⧺ ")"

  abbrev comment_of : Option String → String → String
  comment_of none old = old
  comment_of (some c) old = c

  abbrev pub title : String → Person → Order → String
  title verb actor order =
      escape actor.fio ⧺ verb ⧺ format_uint order.id ⧺ "\n*" ⧺ escape order.name ⧺ "*"

  -- The switch over the kind of an event.
  abbrev collect : Person → Person → Order → Event → EventType → Details → Details
  collect recipient actor order e create d = record d {
    main_action = "✅ " ⧺ title " создал\\(а\\) новую заявку №" actor order;
  }
  collect recipient actor order e status_change d =
      let id = parse_uint (text_of e.item.new_value) in
      record d { status = latest (escaped (of_id o.statuses id)) d.status }
  collect recipient actor order e priority_change d =
      let id = parse_uint (text_of e.item.new_value) in
      record d { priority = latest (escaped (of_id o.priorities id)) d.priority }
  collect recipient actor order e delegation d =
      let id = parse_uint (text_of e.item.new_value) in
      record d { assigned = latest (executor_text recipient (of_id new_executor id)) d.assigned }
  collect recipient actor order e comment d = record d {
    comment = comment_of e.item.comment d.comment;
  }
  collect recipient actor order e duration_change d = record d {
    due = latest (escaped (o.due_text (text_of e.item.new_value))) d.due;
  }
  collect recipient actor order e attachment_add d = record d {
    attachment_text = attachment_line e.attachment d.attachment_text;
  }
  collect recipient actor order e _ d = d

  abbrev pub collected : Person → Person → Order → List Event → Details → Details
  collected recipient actor order [] d = d
  collected recipient actor order (e ∷ es) d =
      collected recipient actor order es (collect recipient actor order e e.item.event_type d)

  abbrev line : String → Option String → List String
  line label none = []
  line label (some v) = (label ⧺ ": *" ⧺ v ⧺ "*") ∷ []

  abbrev pub detail_lines : Details → List String
  detail_lines d =
      line "Статус" d.status
      ++ line "Приоритет" d.priority
      ++ line "Исполнитель" d.assigned
      ++ line "Срок выполнения" d.due

  abbrev pub with_lines : List String → String
  with_lines [] = ""
  with_lines (l ∷ ls) = join "\n" (l ∷ ls) ⧺ "\n\n"

  abbrev pub if_text : String → String → String
  if_text s shown = if is_empty s then "" else shown

  abbrev pub printed : Person → Order → Details → String
  printed actor order d =
      (if is_empty d.main_action
        then "🔄 " ⧺ title " обновил\\(а\\) заявку №" actor order
        else d.main_action)
      ⧺ "\n\n"
      ⧺ with_lines (detail_lines d)
      ⧺ if_text d.attachment_text (d.attachment_text ⧺ "\n\n")
      ⧺ if_text d.comment ("`" ⧺ escape d.comment ⧺ "`\n\n")
      ⧺ "[Посмотреть мои заявки]("
      ⧺ o.frontend_url
      ⧺ "/order?participant=me)"

  abbrev pub nothing_yet : Details
  nothing_yet = record {
    main_action = "";
    status = none;
    priority = none;
    assigned = none;
    due = none;
    comment = "";
    attachment_text = "";
  }

  abbrev pub message_of : Option Person → Option Order → Person → List Event → String
  message_of (some actor) (some order) recipient es =
      printed actor order (collected recipient actor order es nothing_yet)
  message_of _ _ recipient es = ""

  -- `formatGroupedMessage`.
  unfoldable pub format_grouped_message : List Event → Person → String
  unfolding escape new_executor format_uint parse_uint
  format_grouped_message [] recipient = ""
  format_grouped_message (e ∷ es) recipient = message_of e.actor e.order recipient (e ∷ es)
