-- ===== src/Orders/Validation.antt =====
-- internal/services/order_service_validation.go, with the tables of order.go that it reads.
pub mod Permitted
use Prim.Native.String.{◌++◌ as concat}
use request_system.Common.{
  ℕ, String, Bool, true, false, ◌&&◌, ◌||◌, not, Option, none, some, List, [], ◌∷◌, if◌then◌else◌,
  ◌==◌, str_eq, is_some, is_empty, trim_space,
}
use request_system.Entities.{Order, User}
use request_system.Errors.{Error, http, driver, panic, Result, ok, err, new_bad_request_error}
use request_system.Authz.{Context, can_do}
use request_system.Orders.Metrics.{has_comment}
use request_system.Orders.Patch.{Value, Fields, lookup, null}
use request_system.Orders.History.{Directory, File, structure_differs}
use request_system.Orders.Requests.{
  CreateOrderDto, UpdateOrderDto, RuleEngine, RoutingResult, OrderContext,
  build_order_routing_context,
}

pub record FieldPermission : Type 0 where
  pub field : String
  pub permission : String
  pub label : String

abbrev field_permission : String → String → String → FieldPermission
field_permission field permission label = record {
  field = field;
  permission = permission;
  label = label;
}

abbrev pub order_update_field_permissions : List FieldPermission
order_update_field_permissions =
    field_permission "name" "order:update:name" "название заявки"
    ∷ field_permission "address" "order:update:address" "адрес"
    ∷ field_permission "department_id" "order:update:department_id" "департамент"
    ∷ field_permission "otdel_id" "order:update:otdel_id" "отдел"
    ∷ field_permission "branch_id" "order:update:branch_id" "филиал"
    ∷ field_permission "office_id" "order:update:office_id" "офис"
    ∷ field_permission "equipment_id" "order:update:equipment_id" "оборудование"
    ∷ field_permission "equipment_type_id" "order:update:equipment_type_id" "тип оборудования"
    ∷ field_permission "executor_id" "order:update:executor_id" "исполнитель"
    ∷ field_permission "status_id" "order:update:status_id" "статус"
    ∷ field_permission "priority_id" "order:update:priority_id" "приоритет"
    ∷ field_permission "duration" "order:update:duration" "срок"
    ∷ field_permission "comment" "order:update:comment" "комментарий"
    ∷ []

abbrev pub order_create_field_permissions : List FieldPermission
order_create_field_permissions =
    field_permission "name" "order:create:name" "название заявки"
    ∷ field_permission "address" "order:create:address" "адрес"
    ∷ field_permission "department_id" "order:create:department_id" "департамент"
    ∷ field_permission "otdel_id" "order:create:otdel_id" "отдел"
    ∷ field_permission "branch_id" "order:create:branch_id" "филиал"
    ∷ field_permission "office_id" "order:create:office_id" "офис"
    ∷ field_permission "equipment_id" "order:create:equipment_id" "оборудование"
    ∷ field_permission "equipment_type_id" "order:create:equipment_type_id" "тип оборудования"
    ∷ field_permission "executor_id" "order:create:executor_id" "исполнитель"
    ∷ field_permission "priority_id" "order:create:priority_id" "приоритет"
    ∷ field_permission "duration" "order:create:duration" "срок"
    ∷ field_permission "comment" "order:create:comment" "комментарий"
    ∷ []

infixl 5 ◌>>=◌ ◌>>◌
abbrev pub ◌>>=◌ : {A B : Type 0} → Result A → (A → Result B) → Result B
ok a >>= f = f a
err e >>= f = err e

abbrev pub ◌>>◌ : {A B : Type 0} → Result A → Result B → Result B
m >> k = m >>= λ _. k

abbrev pub require : Bool → Error → Result (Unit {0})
require true e = ok tt
require false e = err e

-- The loop over a table: a field that is present needs its permission. The source walks a Go map,
-- so which forbidden field is reported first is open; whether one is does not depend on the order.
unfoldable pub check_fields :
    Context → (String → Bool) → (String → String) → List FieldPermission → Result (Unit {0})
check_fields auth present message [] = ok tt
check_fields auth present message (spec ∷ rest) =
    let later = check_fields auth present message rest in
    if not (present spec.field)
    then later
    else if can_do spec.permission auth
    then later
    else err (http 403 (message spec.label))

unfoldable pub check_file : Context → Option File → String → String → Result (Unit {0})
check_file auth file permission message =
    require (not (is_some file) || can_do permission auth) (http 403 message)

abbrev pub sent : Fields → String → Bool
sent explicit_fields field = is_some (lookup field explicit_fields)

abbrev update_message : String → String
update_message label = concat "У вас нет прав изменять поле «" (concat label "».")

unfoldable pub validate_update_field_permissions :
    Context → Fields → Option File → Result (Unit {0})
unfolding check_fields check_file
validate_update_field_permissions auth explicit_fields file = do
  check_fields auth (sent explicit_fields) update_message order_update_field_permissions
  check_file auth file "order:update:file" "У вас нет прав добавлять файл к заявке."

-- `presentFields`.
abbrev pub present_fields : CreateOrderDto → String → Bool
present_fields d field =
    if str_eq field "name"
    then not (is_empty (trim_space d.name))
    else if str_eq field "address"
    then is_some d.address
    else if str_eq field "department_id"
    then is_some d.department_id
    else if str_eq field "otdel_id"
    then is_some d.otdel_id
    else if str_eq field "branch_id"
    then is_some d.branch_id
    else if str_eq field "office_id"
    then is_some d.office_id
    else if str_eq field "equipment_id"
    then is_some d.equipment_id
    else if str_eq field "equipment_type_id"
    then is_some d.equipment_type_id
    else if str_eq field "executor_id"
    then is_some d.executor_id
    else if str_eq field "priority_id"
    then is_some d.priority_id
    else if str_eq field "duration"
    then is_some d.duration
    else if str_eq field "comment"
    then is_some d.comment
    else false

abbrev create_message : String → String
create_message label =
    concat "У вас нет прав заполнять поле «" (concat label "» при создании заявки.")

unfoldable pub validate_create_field_permissions :
    Context → CreateOrderDto → Option File → Result (Unit {0})
unfolding check_fields check_file
validate_create_field_permissions auth d file = do
  check_fields auth (present_fields d) create_message order_create_field_permissions
  check_file auth file "order:create:file" "У вас нет прав добавлять файл при создании заявки."

-- `d.X != nil && *d.X != 0`.
abbrev non_zero : Option ℕ → Bool
non_zero none = false
non_zero (some n) = not (n == 0)

unfoldable pub check_field_presence : CreateOrderDto → String → Bool
check_field_presence d field =
    if str_eq field "equipment_id"
    then non_zero d.equipment_id
    else if str_eq field "equipment_type_id"
    then non_zero d.equipment_type_id
    else if str_eq field "priority_id"
    then non_zero d.priority_id
    else if str_eq field "comment"
    then has_comment d.comment
    else true

-- `OrderValidationRules[code]`.
abbrev order_validation_rules : String → List String
order_validation_rules code =
    if str_eq code "EQUIPMENT"
    then "equipment_id" ∷ "equipment_type_id" ∷ "priority_id" ∷ []
    else []

check_rules : CreateOrderDto → List String → Result (Unit {0})
check_rules d [] = ok tt
check_rules d (field ∷ rest) =
    let later = check_rules d rest in
    if check_field_presence d field
    then later
    else err (new_bad_request_error (concat "Поле " (concat field " обязательно.")))

-- A type that is not given, or whose code is not found, is not checked.
unfoldable pub validate_order_rules : Directory → CreateOrderDto → Result (Unit {0})
unfolding check_rules check_field_presence
validate_order_rules dir d = elim d.order_type_id [
  | none ↦ ok tt
  | some order_type_id ↦ elim (dir.find_order_type_code order_type_id) [
    | none ↦ ok tt
    | some code ↦ (do
      check_rules d (order_validation_rules code)
      require (str_eq code "EQUIPMENT" || check_field_presence d "comment") (
          new_bad_request_error "Для данного типа заявки необходимо заполнить поле 'Комментарий'."))
  ]
]

abbrev code_of_type : Option String → String
code_of_type none = ""
code_of_type (some code) = code

-- `validateUpdateCommentRequirement`: the type of the stored order is dereferenced.
unfoldable pub validate_update_comment_requirement :
    Directory → Order → Option String → Result (Unit {0})
validate_update_comment_requirement dir current comment_text = elim current.order_type_id [
  | none ↦ err panic
  | some order_type_id ↦
      require
        (str_eq (code_of_type (dir.find_order_type_code order_type_id)) "EQUIPMENT"
          || has_comment comment_text)
        (new_bad_request_error
          "Для сохранения изменений необходимо добавить комментарий с описанием действий.")
]

build_missing_responsible_error : Order → String
build_missing_responsible_error o =
    if is_some o.department_id
    then "В выбранном департаменте не найден руководитель или заместитель. Выберите исполнителя вручную или настройте маршрутизацию."
    else if is_some o.otdel_id
    then "В выбранном отделе не найден руководитель или заместитель. Выберите исполнителя вручную или настройте маршрутизацию."
    else if is_some o.branch_id
    then "В выбранном филиале не найден руководитель или заместитель. Выберите исполнителя вручную или настройте маршрутизацию."
    else if is_some o.office_id
    then "В выбранном офисе не найден руководитель или заместитель. Выберите исполнителя вручную или настройте маршрутизацию."
    else "Для выбранной структуры не найден ответственный руководитель. Выберите исполнителя вручную или настройте маршрутизацию."

unfoldable pub wrap_executor_resolution_error : Error → Order → Error
unfolding build_missing_responsible_error
wrap_executor_resolution_error (http code message) o =
    if code == 400
    then new_bad_request_error (build_missing_responsible_error o)
    else http code message
wrap_executor_resolution_error (driver t pg) o = driver t pg
wrap_executor_resolution_error panic o = panic

abbrev pub wrap_failure : Order → Result RoutingResult → Result RoutingResult
wrap_failure o (ok r) = ok r
wrap_failure o (err e) = err (wrap_executor_resolution_error e o)

-- `rawExecutor, exists := explicitFields["executor_id"]; exists && rawExecutor != nil`.
abbrev pub selects_executor : Option Value → Bool
selects_executor none = false
selects_executor (some null) = false
selects_executor (some v) = true

abbrev pub routing_context : Order → OrderContext
routing_context o =
    build_order_routing_context o.order_type_id o.department_id o.otdel_id o.branch_id o.office_id

-- `applyUpdateExecutorRouting`: the order with its executor, and `routingChanged`.
unfoldable pub apply_update_executor_routing :
    RuleEngine → Context → Order → Order → UpdateOrderDto → Fields → Result (Order × Bool)
apply_update_executor_routing engine auth current updated d explicit_fields =
    let structure_changed = structure_differs current updated in
    if selects_executor (lookup "executor_id" explicit_fields)
    then (do
      require (can_do "order:update:executor_id" auth)
          (http 403 "У вас нет прав назначать исполнителя вручную.")
      r ← engine.resolve_executor (routing_context updated) d.executor_id
      ok (record updated { executor_id = some r.executor.id }, true))
    else if structure_changed
    then (do
      r ← wrap_failure updated (engine.resolve_executor (routing_context updated) none)
      ok (record updated { executor_id = some r.executor.id }, true))
    else ok (updated, false)
