-- ===== src/Routing/People.antt =====
-- internal/services/rule_engine_service.go: the executor chosen by hand, and the one that a rule
-- names. The tables that the queries read are lists, in the order in which the database gives rows;
-- a query with LIMIT 1 takes the first.
use request_system.Common.{
  ℕ, String, Bool, true, false, ◌&&◌, ◌||◌, not, Option, none, some, List, [], ◌∷◌, if◌then◌else◌,
  ◌==◌, ltb, is_some, points_to, both_equal, any, find, select, codes, to_lower, codes_eq,
}
use request_system.Entities.{User}
use request_system.Errors.{Error, Result, ok, err, new_bad_request_error}
use request_system.Orders.Requests.{OrderContext}

-- A row of users with what user_positions and positions add: the ids and the types of the positions
-- of the user. The status's code is in the user.
pub record Employee : Type 0 where
  pub user : User
  pub is_deleted : Bool
  pub position_ids : List ℕ
  pub position_types : List String

-- A row of order_routing_rules.
pub record Rule : Type 0 where
  pub order_type_id : Option ℕ
  pub department_id : Option ℕ
  pub otdel_id : Option ℕ
  pub branch_id : Option ℕ
  pub office_id : Option ℕ
  pub assign_to_position_id : Option ℕ
  pub status_id : Option ℕ

-- What the engine reads: the tables, the setting HEAD_BRANCH_NAMES, the error of the query for the
-- rules if it fails, whether the queries for people fail, and the error of reading a NULL as an int.
pub record Organisation : Type 0 where
  pub employees : List Employee
  pub rules : List Rule
  pub branch_name : ℕ → Option String
  pub head_branch_names : String
  pub rules_fault : Option Error
  pub people_fault : Bool
  pub null_status : Error

-- UPPER(s.code) = 'ACTIVE', and EqualFold.
unfoldable pub is_active_code : String → Bool
is_active_code code = codes_eq (to_lower (codes code)) (codes "active")

abbrev pub works : Employee → Bool
works e = not e.is_deleted && is_active_code e.user.status_code

-- The columns that the queries for people scan; the rest is Go's zero.
abbrev pub scanned : User → User
scanned u = record u { status_code = ""; office_id = none; otdel_id = none }

abbrev pub matches_executor_to_structure : User → OrderContext → Bool
matches_executor_to_structure u c =
    if not (c.department_id == 0)
    then points_to u.department_id c.department_id
    else if is_some c.otdel_id
    then both_equal u.otdel_id c.otdel_id
      && (not (is_some c.branch_id) || both_equal u.branch_id c.branch_id)
    else if is_some c.branch_id
    then both_equal u.branch_id c.branch_id
    else if is_some c.office_id
    then both_equal u.office_id c.office_id
    else true

build_executor_structure_error : OrderContext → String
build_executor_structure_error c =
    if not (c.department_id == 0)
    then "Выбранный исполнитель не относится к выбранному департаменту."
    else if is_some c.otdel_id
    then "Выбранный исполнитель не относится к выбранному отделу."
    else if is_some c.branch_id
    then "Выбранный исполнитель не относится к выбранному филиалу."
    else if is_some c.office_id
    then "Выбранный исполнитель не относится к выбранному офису."
    else "Выбранный исполнитель не соответствует структуре заявки."

-- `FindUserByIDInTx`.
abbrev pub find_user_by_id : Organisation → ℕ → Option Employee
find_user_by_id org id =
    if org.people_fault then none else find (λ e. not e.is_deleted && e.user.id == id) org.employees

unfoldable pub checked_executor : Option Employee → OrderContext → Result User
unfolding build_executor_structure_error
checked_executor none c = err (new_bad_request_error "Выбранный исполнитель не найден.")
checked_executor (some e) c =
    if not (is_active_code e.user.status_code)
    then err (new_bad_request_error "Выбранный исполнитель неактивен. Выберите другого сотрудника.")
    else if not (matches_executor_to_structure e.user c)
    then err (new_bad_request_error (build_executor_structure_error c))
    else ok e.user

unfoldable pub validate_explicit_executor : Organisation → ℕ → OrderContext → Result User
unfolding checked_executor
validate_explicit_executor org id c = checked_executor (find_user_by_id org id) c

-- The WHERE of the query for a rule: NULL, or equal to what the order has.
abbrev accepts : Option ℕ → Option ℕ → Bool
accepts column value = not (is_some column) || both_equal column value

abbrev pub rule_matches : OrderContext → Rule → Bool
rule_matches c r =
    accepts r.order_type_id (some c.order_type_id)
    && accepts r.department_id (some c.department_id)
    && accepts r.otdel_id c.otdel_id
    && accepts r.branch_id c.branch_id
    && accepts r.office_id c.office_id

-- ORDER BY column NULLS LAST, then `rest`: whether `a` stands strictly before `b`.
abbrev pub nulls_last : Option ℕ → Option ℕ → Bool → Bool
nulls_last none none rest = rest
nulls_last none (some b) rest = false
nulls_last (some a) none rest = true
nulls_last (some a) (some b) rest = ltb a b || (a == b && rest)

abbrev pub stands_before : Rule → Rule → Bool
stands_before a b = nulls_last a.order_type_id b.order_type_id (
    nulls_last a.otdel_id b.otdel_id (
      nulls_last a.office_id b.office_id
        (nulls_last a.department_id b.department_id (nulls_last a.branch_id b.branch_id false))))

-- The first row in that order; of equal ones, the one that the table has first.
unfoldable pub first_rule : Rule → List Rule → Rule
first_rule r [] = r
first_rule r (x ∷ xs) = first_rule (if stands_before x r then x else r) xs

abbrev pub first_of : List Rule → Option Rule
first_of [] = none
first_of (r ∷ rs) = some (first_rule r rs)

unfoldable pub chosen_rule : Organisation → OrderContext → Option Rule
unfolding first_rule
chosen_rule org c = first_of (select (rule_matches c) org.rules)

abbrev pub holds_position : ℕ → OrderContext → Employee → Bool
holds_position position_id c e =
    let ignore_branch = not (c.department_id == 0) || is_some c.otdel_id in
    any (λ p. p == position_id) e.position_ids
    && works e
    && (c.department_id == 0
        || not (is_some e.user.department_id)
        || points_to e.user.department_id c.department_id)
    && (not (is_some c.otdel_id)
        || not (is_some e.user.otdel_id)
        || both_equal e.user.otdel_id c.otdel_id)
    && (ignore_branch
        || not (is_some c.branch_id)
        || not (is_some e.user.branch_id)
        || both_equal e.user.branch_id c.branch_id)

-- ORDER BY u.id ASC LIMIT 1
unfoldable pub least_employee : Employee → List Employee → Employee
least_employee e [] = e
least_employee e (x ∷ xs) = least_employee (if ltb x.user.id e.user.id then x else e) xs

abbrev pub least_of : List Employee → Option Employee
least_of [] = none
least_of (e ∷ es) = some (least_employee e es)

unfoldable pub find_user_by_position_and_structure :
    Organisation → ℕ → OrderContext → Option Employee
unfolding least_employee
find_user_by_position_and_structure org position_id c =
    if org.people_fault
    then none
    else least_of (select (holds_position position_id c) org.employees)
