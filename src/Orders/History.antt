-- ===== src/Orders/History.antt =====
-- internal/services/order_service_history.go: which history items an update writes.
pub mod Preserved
pub mod Completeness
use Prim.Native.String.{◌++◌ as concat}
use request_system.Common.{
  ℕ, suc, String, Bool, true, false, ◌&&◌, ◌||◌, not, Option, none, some, List, [], ◌∷◌, ◌++◌,
  if◌then◌else◌, ◌==◌, str_eq, is_some, diff_ptr, is_empty, format_uint, trim_space, join,
}
use request_system.Entities.{
  Order, User, nobody, Status, Attachment, HistoryItem, Time, time_equal, EventType, create,
  comment, name_change, address_change, duration_change, equipment_change, equipment_type_change,
  order_type_change, delegation, status_change, priority_change, structure_change, attachment_add,
}
use request_system.Errors.{Error, Result, ok, err, panic}
use request_system.Orders.Metrics.{has_comment}
use request_system.Orders.Store.{
  Store, World, M, pure, fail, continue, ◌>>=◌, ◌>>◌, or_fail, attempt, time_now, modify,
  add_history_and_publish, open_file, save_file, find_uploader, insert_attachment,
}

-- The repositories and formats that the order service reads. A lookup that fails, for whatever
-- reason, gives `none`: the service drops these errors or maps them to one of its own.
pub record Directory : Type 0 where
  pub find_user : ℕ → Option User
  pub find_status : ℕ → Option Status
  pub find_status_by_code : String → Option Status
  pub find_order_type_code : ℕ → Option String
  pub parse_time : String → Option Time
  pub format_time : Time → String

-- An uploaded file: `multipart.FileHeader`, and where the storage puts it.
pub record File : Type 0 where
  pub file_name : String
  pub file_path : String

-- `utils.PtrToString`.
abbrev pub ptr_to_string : Option ℕ → String
ptr_to_string none = ""
ptr_to_string (some n) = format_uint n

abbrev pub differs : Option ℕ → Option ℕ → Bool
differs = diff_ptr ◌==◌

-- An item before it is stamped with the order, the actor and the time.
pub record Draft : Type 0 where
  pub event_type : EventType
  pub new_value : Option String
  pub old_value : Option String
  pub comment_text : Option String
  pub executor_fio : Option String  -- only in the item of a new executor

abbrev pub plain : EventType → Option String → Option String → Option String → Draft
plain event_type new_value old_value comment_text = record {
  event_type = event_type;
  new_value = new_value;
  old_value = old_value;
  comment_text = comment_text;
  executor_fio = none;
}

-- `&valNew, &valOld` of two optional ids.
abbrev pub id_change : EventType → Option ℕ → Option ℕ → Draft
id_change event_type new old =
    plain event_type (some (ptr_to_string new)) (some (ptr_to_string old)) none

abbrev format_optional : (Time → String) → Option Time → String
format_optional format none = ""
format_optional format (some t) = format t

-- The empty text as nil.
abbrev non_empty : String → Option String
non_empty s = if is_empty s then none else some s

abbrev resolve_user_name : Directory → Option ℕ → String
resolve_user_name dir none = ""
resolve_user_name dir (some id) = elim (dir.find_user id) [ none ↦ "" | some u ↦ u.fio ]

abbrev change_part : String → Option ℕ → Option ℕ → List String
change_part label old new =
    if differs old new
    then concat label (concat (ptr_to_string old) (concat " → " (ptr_to_string new))) ∷ []
    else []

structure_text : Order → Order → String
structure_text old new = concat "Смена структуры: " (
    join "; " (
      change_part "department_id: " old.department_id new.department_id
      ++ change_part "otdel_id: " old.otdel_id new.otdel_id
      ++ change_part "branch_id: " old.branch_id new.branch_id
      ++ change_part "office_id: " old.office_id new.office_id))

abbrev pub structure_differs : Order → Order → Bool
structure_differs old new =
    differs old.department_id new.department_id
    || differs old.otdel_id new.otdel_id
    || differs old.branch_id new.branch_id
    || differs old.office_id new.office_id

duration_draft : Directory → Order → Order → Draft
duration_draft dir old new =
    plain duration_change (non_empty (format_optional dir.format_time new.duration))
      (non_empty (format_optional dir.format_time old.duration)) none

abbrev pub duration_loggable : Directory → Order → Order → Bool
duration_loggable dir old new =
    diff_ptr time_equal old.duration new.duration
    && (not (is_empty (format_optional dir.format_time new.duration))
        || not (is_empty (format_optional dir.format_time old.duration)))

delegation_draft : Directory → Order → Order → Draft
delegation_draft dir old new = record {
  event_type = delegation;
  new_value = some (ptr_to_string new.executor_id);
  old_value = some (ptr_to_string old.executor_id);
  comment_text = some (concat "Назначено на: " (resolve_user_name dir new.executor_id));
  executor_fio = some (resolve_user_name dir new.executor_id);
}

-- The `if` statements of `detectAndLogChanges` in their order: the test, and what is logged.
unfoldable pub changes : Directory → Order → Order → Option String → List (Bool × Draft)
unfolding structure_text duration_draft delegation_draft
changes dir old new comment_text =
    (has_comment comment_text, plain comment none none comment_text)
    ∷ (not (str_eq old.name new.name), plain name_change (some new.name) (some old.name) none)
    ∷ (diff_ptr str_eq old.address new.address, plain address_change new.address old.address none)
    ∷ (duration_loggable dir old new, duration_draft dir old new)
    ∷ (
      differs old.equipment_id new.equipment_id,
      id_change equipment_change new.equipment_id old.equipment_id,
    )
    ∷ (
      differs old.equipment_type_id new.equipment_type_id,
      id_change equipment_type_change new.equipment_type_id old.equipment_type_id,
    )
    ∷ (
      differs old.order_type_id new.order_type_id,
      id_change order_type_change new.order_type_id old.order_type_id,
    )
    ∷ (differs old.executor_id new.executor_id, delegation_draft dir old new)
    ∷ (
      not (old.status_id == new.status_id),
      plain status_change (some (format_uint new.status_id)) (some (format_uint old.status_id))
          none,
    )
    ∷ (
      differs old.priority_id new.priority_id,
      id_change priority_change new.priority_id old.priority_id,
    )
    ∷ (structure_differs old new, plain structure_change none none (some (structure_text old new)))
    ∷ []

-- The item of a draft. That of a new executor bears the update's own time.
abbrev stamp : Draft → ℕ → User → ℕ → Time → HistoryItem
stamp d order_id actor tx_id at = record {
  order_id = order_id;
  user_id = actor.id;
  event_type = d.event_type;
  old_value = d.old_value;
  new_value = d.new_value;
  comment = d.comment_text;
  attachment_id = none;
  tx_id = some tx_id;
  created_at = at;
  creator_fio = if is_some d.executor_fio then none else some actor.fio;
  delegator_fio = if is_some d.executor_fio then some actor.fio else none;
  executor_fio = d.executor_fio;
}

module _ (w : World) where
  -- `logHistoryEvent`: the item is stamped with the time of the call.
  unfoldable pub log_history_event : Draft → User → ℕ → Order → M (Unit {0})
  log_history_event d actor tx_id o = do
    at ← time_now w
    add_history_and_publish w (stamp d o.id actor tx_id at) o actor

  unfoldable pub log_draft : Draft → User → ℕ → Order → Time → M (Unit {0})
  unfolding log_history_event
  log_draft d actor tx_id o now =
      if is_some d.executor_fio
      then add_history_and_publish w (stamp d o.id actor tx_id now) o actor
      else log_history_event d actor tx_id o

  -- The statements one after the other, with `hasLoggable`.
  unfoldable pub log_changes : List (Bool × Draft) → User → ℕ → Order → Time → M Bool
  log_changes [] actor tx_id o now = pure false
  log_changes ((test, d) ∷ rest) actor tx_id o now =
      let later = log_changes rest actor tx_id o now in
      if test then (do log_draft d actor tx_id o now; later; pure true) else later

  unfoldable pub detect_and_log_changes :
      Directory → Order → Order → Option String → User → ℕ → Time → M Bool
  unfolding changes log_changes
  detect_and_log_changes dir old new comment_text actor tx_id now =
      log_changes (changes dir old new comment_text) actor tx_id new now

  -- `actor, _ := FindUserByIDInTx(...)`: an empty user where there is no row, and nil, which is then
  -- dereferenced, where the query fails.
  abbrev pub uploader : Option Error → Option User → M User
  uploader (some e) found = fail panic
  uploader none none = pure nobody
  uploader none (some u) = pure u

  -- `attachFileToOrderInTx`. The uploader is looked up again.
  unfoldable pub attach_file_to_order : Directory → ℕ → ℕ → File → ℕ → Order → M ℕ
  attach_file_to_order dir order_id user_id file tx_id o = do
    attempt w (open_file file.file_name)
    attempt w (save_file file.file_name)
    modify λ s. record s { files = s.files ++ file.file_path ∷ [] }
    time_now w
    let row : Attachment = record {
      id = 0;
      order_id = order_id;
      user_id = user_id;
      file_name = file.file_name;
      file_path = file.file_path;
    }
    attempt w (insert_attachment row)
    id ← λ s. (
      ok s.next_attachment_id,
      record s {
        db = record (s.db) {
          attachments = s.db.attachments ++ record row { id = s.next_attachment_id } ∷ [];
        };
        next_attachment_id = suc (s.next_attachment_id);
      },
    )
    actor ← uploader (w.fault (find_uploader user_id)) (dir.find_user user_id)
    at ← time_now w
    let item : HistoryItem = record {
      order_id = order_id;
      user_id = user_id;
      event_type = attachment_add;
      old_value = none;
      new_value = some file.file_name;
      comment = none;
      attachment_id = some id;
      tx_id = some tx_id;
      created_at = at;
      creator_fio = some actor.fio;
      delegator_fio = none;
      executor_fio = none;
    }
    add_history_and_publish w item o actor
    pure id
