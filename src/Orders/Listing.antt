-- ===== src/Orders/Listing.antt =====
-- The list of orders: `GetOrders` of internal/services/order_service_list.go, the query of
-- internal/repositories/order-repository.go and `ApplyListParams` of
-- internal/infrastructure/bd. The database evaluates the conditions and sorts the rows.
pub mod Filters
pub mod Conditions
pub mod Rows
pub mod Visible
unfoldable pub use Filters.*
use request_system.Common.{
  ℕ, zero, suc, String, Bool, true, false, ◌&&◌, ◌||◌, not, Option, none, some, List, [], ◌∷◌, ◌++◌,
  map, reverse, if◌then◌else◌, ◌==◌, str_eq, is_some, is_empty, points_to, any, all, select, length,
  split_on, In, ◌≡◌, ◌↔◌, codes, codes_eq, to_lower, contains,
}
use request_system.Entities.{Order, User, Attachment}
use request_system.Errors.{Result, ok, err, err_unauthorized, err_forbidden, err_user_not_found}
use request_system.Authz.{Context, no_target, has_permission, can_do}
use request_system.Authz.Permissions.{
  orders_view, scope_own, scope_otdel, scope_office, scope_branch, scope_department, scope_all,
  scope_all_view,
}
use request_system.Orders.Patch.{Value, text, flag, Fields, lookup, null}
use request_system.Orders.Store.{
  Store, World, M, pure, fail, lift, ◌>>=◌, ◌>>◌, guard, or_fail, attempt, count_orders,
  list_orders, list_attachments_of,
}
use request_system.Orders.History.{Directory}
use request_system.Orders.Requests.{RequestContext, OrderResponse}
use request_system.Orders.Access.{resolve_actor, to_response_dto}

-- A condition that says who may see a row.
pub data Scope : Type 0 where
  department_is : ℕ → Scope
  branch_is : ℕ → Scope
  otdel_is : ℕ → Scope
  office_is : ℕ → Scope
  creator_is : ℕ → Scope
  executor_is : ℕ → Scope
  in_history_of : ℕ → Scope
  only_involves : ℕ → Scope

-- A member of the conjunction `securityBuilder`.
pub data Condition : Type 0 where
  only : Scope → Condition
  any_of : List Scope → Condition

-- `o.id IN (SELECT DISTINCT order_id FROM order_history WHERE user_id = ?)`
abbrev pub took_part : Store → ℕ → Order → Bool
took_part s user_id o = any (λ h. h.order_id == o.id && h.user_id == user_id) s.db.history

abbrev pub in_scope : Store → Order → Scope → Bool
in_scope s o (department_is n) = points_to o.department_id n
in_scope s o (branch_is n) = points_to o.branch_id n
in_scope s o (otdel_is n) = points_to o.otdel_id n
in_scope s o (office_is n) = points_to o.office_id n
in_scope s o (creator_is n) = o.creator_id == n
in_scope s o (executor_is n) = points_to o.executor_id n
in_scope s o (in_history_of n) = took_part s n o
in_scope s o (only_involves n) =
    took_part s n o && not (o.creator_id == n) && not (points_to o.executor_id n)

abbrev pub holds : Store → Order → Condition → Bool
holds s o (only c) = in_scope s o c
holds s o (any_of cs) = any (in_scope s o) cs

abbrev pub when {ℓ} : {A : Type ℓ} → Bool → List A → List A
when b cs = if b then cs else []

-- `if authCtx.HasPermission(scope) && unit != nil`
abbrev pub unit_condition : Bool → Option ℕ → (ℕ → Scope) → List Scope
unit_condition allowed none make = []
unit_condition allowed (some n) make = when allowed (make n ∷ [])

module _ (ctx : Context) where
  abbrev pub sees_all : Bool
  sees_all = has_permission ctx scope_all || has_permission ctx scope_all_view

  unfoldable pub scope_conditions : List Scope
  scope_conditions =
      unit_condition (has_permission ctx scope_department) ctx.actor.department_id department_is
      ++ unit_condition (has_permission ctx scope_branch) ctx.actor.branch_id branch_is
      ++ unit_condition (has_permission ctx scope_otdel) ctx.actor.otdel_id otdel_is
      ++ unit_condition (has_permission ctx scope_office) ctx.actor.office_id office_is
      ++ when (has_permission ctx scope_own)
          (creator_is ctx.actor.id ∷ executor_is ctx.actor.id ∷ in_history_of ctx.actor.id ∷ [])

  unfoldable pub narrowing : Bool → Bool → Bool → List Condition
  narrowing only_created only_assigned only_involved =
      when only_created (only (creator_is ctx.actor.id) ∷ [])
      ++ when only_assigned (only (executor_is ctx.actor.id) ∷ [])
      ++ when only_involved (only (only_involves ctx.actor.id) ∷ [])

abbrev pub no_conditions : List Scope → Bool
no_conditions [] = true
no_conditions (c ∷ cs) = false

module _ (db : Dbms) where
  abbrev pub passes : Store → Filter → List Condition → Order → Bool
  passes s f security o =
      not (is_some o.deleted_at)
      && all (holds s o) security
      && all (λ c. db.test c o) (where_clause f)

  unfoldable pub matching_rows : Store → Filter → List Condition → List Order
  matching_rows s f security = select (passes s f security) s.db.orders

  abbrev pub sorted_rows : Store → Filter → List Condition → List Order
  sorted_rows s f security = db.arrange (order_columns f) (matching_rows s f security)

  unfoldable pub all_rows : World → Filter → List Condition → M (List Order × ℕ)
  unfolding matching_rows order_columns
  all_rows w f security = do
    attempt w list_orders
    λ s. (ok (sorted_rows s f security, length (sorted_rows s f security)), s)

  unfoldable pub page_rows : World → Filter → List Condition → M (List Order × ℕ)
  unfolding matching_rows order_columns
  page_rows w f security = do
    attempt w list_orders
    λ s. (ok (paged f (sorted_rows s f security), length (matching_rows s f security)), s)

  abbrev pub counted_rows : World → Filter → List Condition → Bool → M (List Order × ℕ)
  counted_rows w f security true s = (ok ([], 0), s)
  counted_rows w f security false s = page_rows w f security s

  -- `getOrdersRefactored`: the count first if there is paging, and then the rows.
  unfoldable pub get_orders_rows : World → Filter → List Condition → M (List Order × ℕ)
  unfolding matching_rows all_rows page_rows
  get_orders_rows w f security =
      if f.with_pagination
      then (do
        attempt w count_orders
        λ s. counted_rows w f security (length (matching_rows s f security) == 0) s)
      else all_rows w f security

abbrev attachments_of : World → Store → Bool → Order → List Attachment
attachments_of w s include o =
    if include && not (is_some (w.fault list_attachments_of))
    then select (λ (a : Attachment). a.order_id == o.id) s.db.attachments
    else []

-- `mapOrdersToDTOs`.
unfoldable pub map_orders_to_dtos : World → Bool → Store → List Order → List OrderResponse
map_orders_to_dtos w include s = map λ o. to_response_dto o (attachments_of w s include o)

pub record OrderList : Type 0 where
  pub list : List OrderResponse
  pub total_count : ℕ

abbrev pub no_orders : OrderList
no_orders = record { list = []; total_count = 0 }

module _ (w : World) (dir : Directory) (permissions_of : ℕ → Option (List String)) (db : Dbms)
    (rc : RequestContext) where
  abbrev list_context : User → List String → Context
  list_context actor permissions = record {
    actor = actor;
    permissions = permissions;
    target = no_target;
    is_participant = false;
    current_permission = "";
  }

  -- The user, the permissions and the actor of the request, with the errors in the code's order.
  unfoldable pub list_reader : Result Context
  unfolding resolve_actor
  list_reader = elim rc.user_id [
    | none ↦ err err_user_not_found
    | some user_id ↦
        elim (elim rc.permissions as (λ _. Option (List String)) [
          | none ↦ permissions_of user_id
          | some ps ↦ some ps
        ]) [
          | none ↦ err err_unauthorized
          | some permissions ↦ elim (resolve_actor dir rc user_id) [
            | none ↦ err err_user_not_found
            | some actor ↦ ok (list_context actor permissions)
          ]
        ]
  ]

  -- The scopes, unless the user sees everything.
  abbrev pub security : Context → Bool → Bool → Bool → List Condition
  security ctx c a i =
      (if sees_all ctx then [] else any_of (scope_conditions ctx) ∷ []) ++ narrowing ctx c a i

  -- The query and the responses.
  unfoldable pub query_orders : Filter → List Condition → M OrderList
  unfolding get_orders_rows map_orders_to_dtos
  query_orders f conditions = do
    (rows, total) ← get_orders_rows db w f conditions
    λ s. (
      ok (record {
        list = map_orders_to_dtos w f.include_attachments s rows;
        total_count = if length rows == 0 then 0 else total;
      }),
      s,
    )

  unfoldable pub get_orders : Filter → Bool → Bool → Bool → M OrderList
  unfolding list_reader query_orders
  get_orders f only_created only_assigned only_involved = do
    ctx ← lift list_reader
    guard (can_do orders_view ctx) err_forbidden
    (if not (sees_all ctx) && no_conditions (scope_conditions ctx)
        then pure no_orders
        else query_orders f (security ctx only_created only_assigned only_involved))
