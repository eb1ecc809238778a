-- ===== src/Routing/Waterfall.antt =====
-- `resolveByHierarchy` of internal/services/rule_engine_service.go, and the names of the roles in
-- pkg/constants/position_type.go.
use Prim.Native.String.{◌++◌ as concat}
use request_system.Common.{
  ℕ, String, Bool, true, false, ◌&&◌, not, Option, none, some, List, [], ◌∷◌, if◌then◌else◌, ◌==◌,
  str_eq, is_some, is_empty, points_to, any, find, split_on, trim_space,
}
use request_system.Errors.{Error, Result, ok, err, new_bad_request_error}
use request_system.Orders.Requests.{OrderContext, RoutingResult}
use request_system.Routing.People.{Employee, Organisation, works, scanned}

abbrev pub name_or_empty : Option String → String
name_or_empty none = ""
name_or_empty (some n) = n

-- Whether the branch is one of the head branches.
unfoldable pub is_head_branch : Organisation → Option ℕ → Bool
is_head_branch org none = false
is_head_branch org (some id) =
    let name = trim_space (name_or_empty (org.branch_name id)) in
    let heads = if is_empty org.head_branch_names then "Саридора" else org.head_branch_names in
    any (λ h. str_eq name (trim_space h)) (split_on b',' heads)

-- What the waterfall settles: the roles in their order, and the filters of the query.
pub record Search : Type 0 where
  pub scope_name : String
  pub roles : List String
  pub department_id : Option ℕ
  pub otdel_id : Option ℕ
  pub branch_id : Option ℕ
  pub office_id : Option ℕ

abbrev department_roles : List String
department_roles = "HEAD_OF_DEPARTMENT" ∷ "DEPUTY_HEAD_OF_DEPARTMENT" ∷ []

abbrev pub search_in :
    String → List String → Option ℕ → Option ℕ → Option ℕ → Option ℕ → Option Search
search_in scope_name roles department_id otdel_id branch_id office_id = some (record {
  scope_name = scope_name;
  roles = roles;
  department_id = department_id;
  otdel_id = otdel_id;
  branch_id = branch_id;
  office_id = office_id;
})

unfoldable pub waterfall : Bool → OrderContext → Option Search
waterfall head c =
    if not (c.department_id == 0)
    then search_in "Департамент" department_roles (some c.department_id) none none none
    else if head && is_some c.office_id
    then search_in "Служба (Головной филиал)" department_roles none none none c.office_id
    else if is_some c.otdel_id
    then search_in "Отдел" ("HEAD_OF_OTDEL" ∷ "DEPUTY_HEAD_OF_OTDEL" ∷ "MANAGER" ∷ []) none
        c.otdel_id c.branch_id none
    else if is_some c.branch_id
    then search_in "Филиал" ("BRANCH_DIRECTOR" ∷ "DEPUTY_BRANCH_DIRECTOR" ∷ []) none none
        c.branch_id none
    else if is_some c.office_id
    then search_in "Офис" ("HEAD_OF_OFFICE" ∷ "DEPUTY_HEAD_OF_OFFICE" ∷ []) none none none
        c.office_id
    else none

abbrev filter_ok : Option ℕ → Option ℕ → Bool
filter_ok none column = true
filter_ok (some id) column = points_to column id

abbrev pub leads : Search → String → Employee → Bool
leads q role e =
    works e
    && any (λ t. str_eq t role) e.position_types
    && filter_ok q.department_id e.user.department_id
    && filter_ok q.otdel_id e.user.otdel_id
    && filter_ok q.branch_id e.user.branch_id
    && filter_ok q.office_id e.user.office_id

-- The loop over the roles.
unfoldable pub find_leader : Organisation → Search → List String → Option Employee
find_leader org q [] = none
find_leader org q (role ∷ rest) =
    let later = find_leader org q rest in
    elim (if org.people_fault then none else find (leads q role) org.employees) [
      | none ↦ later
      | some e ↦ some e
    ]

-- `PositionTypeNames`, for the roles that the waterfall names first and second.
abbrev position_type_name : String → String
position_type_name role =
    if str_eq role "HEAD_OF_DEPARTMENT"
    then "Руководитель департамента"
    else if str_eq role "DEPUTY_HEAD_OF_DEPARTMENT"
    then "Заместитель руководителя департамента"
    else if str_eq role "HEAD_OF_OTDEL"
    then "Руководитель отдела"
    else if str_eq role "DEPUTY_HEAD_OF_OTDEL"
    then "Заместитель руководителя отдела"
    else if str_eq role "BRANCH_DIRECTOR"
    then "Директор филиала"
    else if str_eq role "DEPUTY_BRANCH_DIRECTOR"
    then "Заместитель директора филиала"
    else if str_eq role "HEAD_OF_OFFICE"
    then "Руководитель офиса"
    else if str_eq role "DEPUTY_HEAD_OF_OFFICE"
    then "Заместитель руководителя офиса"
    else role

role_names : List String → String × String
role_names (a ∷ b ∷ rest) = (position_type_name a, position_type_name b)
role_names (a ∷ []) = (position_type_name a, "")
role_names [] = ("", "")

nobody_found : Search → Error
unfolding role_names
nobody_found q =
    let (a, b) = role_names q.roles in
    new_bad_request_error (
      concat "В подразделении '" (
        concat q.scope_name (
          concat "' не найден ни '" (
            concat a (
              concat "', ни '"
                (concat b "'. Выберите исполнителя вручную или настройте маршрутизацию."))))))

unfoldable pub found_leader : Search → Option Employee → Result RoutingResult
unfolding nobody_found
found_leader q none = err (nobody_found q)
found_leader q (some e) =
    ok (record { executor = scanned e.user; status_id = 0; rule_found = false })

unfoldable pub searched : Organisation → Option Search → Result RoutingResult
unfolding found_leader find_leader
searched org none = err (
    new_bad_request_error
      "Для заявки не выбрана структура. Укажите подразделение или выберите исполнителя вручную.")
searched org (some q) = found_leader q (find_leader org q q.roles)

unfoldable pub resolve_by_hierarchy : Organisation → OrderContext → Result RoutingResult
unfolding searched waterfall is_head_branch
resolve_by_hierarchy org c = searched org (waterfall (is_head_branch org c.branch_id) c)
