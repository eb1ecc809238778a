-- ===== src/Orders/Timeline/Lines.antt =====
-- The line of an item, and who acted: `lineForEvent` and the actors of
-- internal/services/order_history.go. Formatting and parsing of times are Go's.
use Prim.Native.String.{◌++◌ as concat}
use request_system.Common.{
  ℕ, String, Bool, false, ◌&&◌, not, Option, none, some, List, [], ◌∷◌, if◌then◌else◌, ◌==◌, any,
  is_empty, trim_space, parse_uint,
}
use request_system.Entities.{Time, EventType, User, Attachment}
use request_system.Entities
use request_system.Orders.Timeline.Names.{
  Kind, department, otdel, status, priority, Reads, Namer, give, ◌>>=◌,
}
use request_system.Orders.Timeline.Texts.{humanize_comment, quoted}

-- The type of a stored item: what the order service writes today, two that older rows have, and
-- anything else.
pub data RowEvent : Type 0 where
  written : EventType → RowEvent
  department_change otdel_change unknown_event : RowEvent

-- A row of order_history.
pub record Row : Type 0 where
  pub order_id : ℕ
  pub user_id : ℕ
  pub event : RowEvent
  pub old_value : Option String
  pub new_value : Option String
  pub comment : Option String
  pub attachment_id : Option ℕ
  pub created_at : Time
  pub tx_id : Option ℕ
  pub creator_fio : Option String
  pub delegator_fio : Option String
  pub executor_fio : Option String

-- `OrderHistoryItem` as `FindByOrderID` gives it: with the name of the new status and the file.
pub record Item : Type 0 where
  pub row : Row
  pub new_status_name : Option String
  pub attachment : Option Attachment

-- `NullStringToString`.
abbrev pub null_text : Option String → String
null_text none = ""
null_text (some s) = s

-- Formats of Go's `time`: RFC3339 parsed, and the two layouts that are shown.
pub record Clock : Type 0 where
  pub parse_rfc3339 : String → Option Time
  pub show_term : Time → String
  pub show_block : Time → String

abbrev pub is_event : EventType → RowEvent → Bool
is_event a (written b) = Entities.same_event a b
is_event a _ = false

-- `buildHistoryMetadata`: the creator of the last CREATE, and who delegated.
abbrev pub creator_of : ℕ → List Item → ℕ
creator_of so_far [] = so_far
creator_of so_far (i ∷ rest) =
    creator_of (if is_event Entities.create i.row.event then i.row.user_id else so_far) rest

abbrev pub delegated : ℕ → List Item → Bool
delegated user_id = any λ i. is_event Entities.delegation i.row.event && i.row.user_id == user_id

abbrev first_name : List String → String
first_name [] = ""
first_name (candidate ∷ rest) =
    let later = first_name rest in
    if is_empty (trim_space candidate) then later else trim_space candidate

-- `historyActorNameFromEvent`.
unfoldable pub actor_name_from_event : Row → String
actor_name_from_event r =
    let others =
      first_name
        (null_text r.creator_fio ∷ null_text r.delegator_fio ∷ null_text r.executor_fio ∷ []) in
    if is_event Entities.delegation r.event
      && not (is_empty (trim_space (null_text r.delegator_fio)))
    then trim_space (null_text r.delegator_fio)
    else others

-- `ShortUserDTO`.
pub record ShortUser : Type 0 where
  pub id : ℕ
  pub fio : String
  pub role : String

abbrev known_fio : Option User → String
known_fio none = "Неизвестный пользователь"
known_fio (some u) = if is_empty (trim_space u.fio) then "Неизвестный пользователь" else u.fio

-- `actorName`.
unfoldable pub actor_name : (ℕ → Option User) → Row → String
unfolding actor_name_from_event
actor_name users r =
    let stored = actor_name_from_event r in
    if is_empty stored then known_fio (users r.user_id) else stored

-- `actorFromEvent`.
unfoldable pub actor_from_event : (ℕ → Option User) → List Item → Row → ShortUser
unfolding actor_name
actor_from_event users items r = record {
  id = r.user_id;
  fio = actor_name users r;
  role =
      if r.user_id == creator_of 0 items
      then "creator"
      else if delegated r.user_id items
      then "delegator"
      else "executor";
}

abbrev or_nothing : String → String → String
or_nothing value line = if is_empty value then "" else line

module _ {S : Type 0} (name : Namer S) where
  abbrev pub named_line : String → String → String → Reads S String
  named_line found line other = give (if is_empty found then other else concat line (quoted found))

  abbrev pub id_line : Kind → String → String → String → Option ℕ → Reads S String
  id_line k line other value none = give (or_nothing value (concat other value))
  id_line k line other value (some id) =
      name k id >>= λ found. named_line found line (concat other value)

  -- `departmentChangeLine`, `otdelChangeLine`, `priorityChangeLine`.
  unfoldable pub change_line : Kind → String → String → String → Reads S String
  unfolding ◌>>=◌
  change_line k line other value = id_line k line other value (parse_uint value)

  -- `statusChangeLine`: the joined name goes first.
  unfoldable pub status_line : Item → String → Reads S String
  unfolding change_line
  status_line i value =
      let joined = trim_space (null_text i.new_status_name) in
      if is_empty joined
      then change_line status "Установлен статус: " "Установлен статус: ID " value
      else give (concat "Установлен статус: " (quoted joined))

  abbrev pub term_line : Clock → String → Option Time → String
  term_line clock value (some t) = concat "Установлен срок выполнения до: " (clock.show_term t)
  term_line clock value none = or_nothing value (concat "Срок выполнения изменен на: " value)

  abbrev pub from_to : String → Item → String
  from_to start i = concat start (
      concat (quoted (null_text i.row.old_value))
        (concat " на " (quoted (null_text i.row.new_value))))

  abbrev pub event_line : Clock → Item → String → EventType → Reads S String
  event_line clock i value Entities.create =
      give (if is_empty value then "Создана заявка" else concat "Создана заявка: " (quoted value))
  event_line clock i value Entities.comment = give ""
  event_line clock i value Entities.name_change = give (from_to "Изменено название заявки: " i)
  event_line clock i value Entities.address_change = give (from_to "Изменен адрес: " i)
  event_line clock i value Entities.duration_change =
      give (term_line clock value (clock.parse_rfc3339 value))
  event_line clock i value Entities.equipment_change =
      give (or_nothing value (concat "Изменено оборудование: ID на " value))
  event_line clock i value Entities.equipment_type_change =
      give (or_nothing value (concat "Изменен тип оборудования: ID на " value))
  event_line clock i value Entities.order_type_change =
      give (or_nothing value (concat "Изменен тип заявки: ID на " value))
  event_line clock i value Entities.delegation = give (trim_space (null_text i.row.comment))
  event_line clock i value Entities.status_change = status_line i value
  event_line clock i value Entities.priority_change =
      change_line priority "Установлен приоритет: " "Установлен приоритет: ID " value
  event_line clock i value Entities.structure_change =
      humanize_comment name (trim_space (null_text i.row.comment))
  event_line clock i value Entities.attachment_add =
      give (if is_empty value then "Прикреплен файл" else concat "Прикреплен файл: " value)

  -- `lineForEvent`, less the attachment that it notes in the block.
  unfoldable pub line_for_event : Clock → Item → RowEvent → Reads S String
  unfolding status_line change_line
  line_for_event clock i (written e) = event_line clock i (null_text i.row.new_value) e
  line_for_event clock i department_change =
      change_line department "Заявка переведена в департамент: "
        "Изменено поле 'Департамент': ID на " (null_text i.row.new_value)
  line_for_event clock i otdel_change =
      change_line otdel "Заявка переведена в отдел: " "Изменено поле 'Отдел': ID на "
        (null_text i.row.new_value)
  line_for_event clock i unknown_event = give ""
