-- ===== src/Orders/Create.antt =====
-- internal/services/order_service_create.go.
pub mod Effects
pub mod Outcome
use Prim.Native.String.{◌++◌ as concat}
use request_system.Common.{
  ℕ, String, Bool, true, false, ◌||◌, not, Option, none, some, List, [], ◌∷◌, if◌then◌else◌, ◌==◌,
  is_some, is_empty, format_uint,
}
use request_system.Entities.{
  Order, User, Status, Time, create as create_event, comment, delegation, status_change,
}
use request_system.Errors.{
  Result, ok, err, err_forbidden, err_internal_server, new_bad_request_error,
}
use request_system.Authz.{Context, can_do}
use request_system.Authz.Permissions.{orders_create}
use request_system.Orders.Store.{
  Store, World, M, pure, fail, lift, continue, ◌>>=◌, ◌>>◌, or_fail, guard, modify, new_uuid,
  create, run_in_transaction, invalidate_dashboard_cache,
}
use request_system.Orders.History.{Directory, File, plain, log_history_event, attach_file_to_order}
use request_system.Orders.Requests.{
  RequestContext, CreateOrderDto, RuleEngine, OrderResponse, build_order_routing_context,
}
use request_system.Orders.Validation.{validate_create_field_permissions, validate_order_rules}
use request_system.Orders.Access.{build_authz_context, find_order_by_id}

-- The entity that the service fills; the rest is Go's zero.
abbrev zero_time : Time
zero_time = record { nanos = 0; zone = 0 }

unfoldable pub new_order : CreateOrderDto → ℕ → ℕ → ℕ → Order
new_order d status_id creator_id executor_id = record {
  id = 0;
  name = d.name;
  department_id = d.department_id;
  status_id = status_id;
  creator_id = creator_id;
  order_type_id = d.order_type_id;
  otdel_id = d.otdel_id;
  priority_id = d.priority_id;
  branch_id = d.branch_id;
  office_id = d.office_id;
  equipment_id = d.equipment_id;
  equipment_type_id = d.equipment_type_id;
  executor_id = some executor_id;
  duration = d.duration;
  address = d.address;
  created_at = zero_time;
  updated_at = zero_time;
  deleted_at = none;
  completed_at = none;
  first_response_time_seconds = none;
  resolution_time_seconds = none;
  is_first_contact_resolution = none;
  creator_name = "";
  executor_name = none;
}

abbrev pub text_or_empty : Option String → String
text_or_empty none = ""
text_or_empty (some t) = t

module _ (w : World) (dir : Directory) (engine : RuleEngine) (rc : RequestContext) where
  -- The comment, if it is not the empty text.
  log_comment : String → User → ℕ → Order → M (Unit {0})
  log_comment comment_text actor tx_id o =
      if is_empty comment_text
      then pure tt
      else log_history_event w (plain comment none none (some comment_text)) actor tx_id o

  attach_if_given : Option File → User → ℕ → Order → M (Unit {0})
  attach_if_given none actor tx_id o = pure tt
  attach_if_given (some file) actor tx_id o = do
    attach_file_to_order w dir o.id actor.id file tx_id o
    pure tt

  -- The items of a new order, in their order.
  unfoldable pub log_creation : CreateOrderDto → User → User → ℕ → Order → M (Unit {0})
  unfolding log_comment
  log_creation d executor actor tx_id o = do
    log_history_event w (plain create_event (some o.name) none none) actor tx_id o
    log_comment (text_or_empty d.comment) actor tx_id o
    log_history_event w
        (plain delegation (some (format_uint executor.id)) none
          (some (concat "Назначено на: " executor.fio)))
        actor tx_id o
    log_history_event w (plain status_change (some (format_uint o.status_id)) none none) actor tx_id
        o

  -- The function that runs in the transaction; it gives `createdID`.
  unfoldable pub create_in_tx : CreateOrderDto → Option File → User → M ℕ
  unfolding log_creation attach_if_given new_order
  create_in_tx d file actor = do
    tx_id ← new_uuid w
    routing ← lift (
        engine.resolve_executor
          (build_order_routing_context d.order_type_id d.department_id d.otdel_id d.branch_id
            d.office_id)
          d.executor_id)
    guard (not (routing.executor.id == 0)) (
        new_bad_request_error
          "Не найден руководитель для выбранной структуры. Настройте правила маршрутизации или укажите исполнителя вручную.")
    status ← or_fail (dir.find_status_by_code "OPEN") err_internal_server
    let o = new_order d status.id actor.id routing.executor.id
    new_id ← create w o
    let created = record o { id = new_id }
    log_creation d routing.executor actor tx_id created
    attach_if_given file actor tx_id created
    pure new_id

  -- What is refused before the transaction, and who acts.
  unfoldable pub admit_creation : CreateOrderDto → Option File → M Context
  admit_creation d file = do
    auth ← build_authz_context w dir rc 0
    guard (can_do orders_create auth) err_forbidden
    lift (validate_create_field_permissions auth d file)
    lift (validate_order_rules dir d)
    guard
        (is_some d.department_id
          || is_some d.branch_id
          || is_some d.otdel_id
          || is_some d.office_id)
        (new_bad_request_error
          "Необходимо указать хотя бы одно подразделение (департамент, филиал, отдел или офис ЦБО).")
    pure auth

  unfoldable pub create_order : CreateOrderDto → Option File → M OrderResponse
  unfolding admit_creation create_in_tx
  create_order d file = do
    auth ← admit_creation d file
    created_id ← run_in_transaction w (create_in_tx d file auth.actor)
    modify (invalidate_dashboard_cache w true true)
    find_order_by_id w dir rc created_id
