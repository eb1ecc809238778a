-- ===== src/Authz.antt =====
-- internal/authz/engine.go. A set of permissions is the list of the map's keys: the code reads
-- only whether a key is present.
pub mod Permissions
pub mod Theorems
use request_system.Common.{
  ◌≡◌, refl, ℕ, String, Bool, true, false, ◌&&◌, ◌||◌, Option, none, some, List, [], ◌∷◌,
  if◌then◌else◌, ◌==◌, str_eq, has_key, split_on, both_equal, points_to,
}
use request_system.Entities.{User, Order}
use Permissions.{
  orders_update, scope_own, scope_otdel, scope_office, scope_branch, scope_department, scope_all,
  scope_all_view, orders_update_in_otdel_scope, orders_update_in_office_scope,
  orders_update_in_branch_scope, orders_update_in_department_scope,
}

-- `Target interface{}`: nothing, or one of the two types that the engine knows, or another one.
pub data Target : Type 0 where
  no_target : Target
  order_target : Order → Target
  user_target : User → Target
  other_target : Target

pub record Context : Type 0 where
  pub actor : User
  pub permissions : List String
  pub target : Target
  pub is_participant : Bool
  pub current_permission : String

abbrev pub has_permission : Context → String → Bool
has_permission c permission = has_key permission c.permissions

second_part : List String → String
second_part (a ∷ b ∷ rest) = b
second_part other = ""

unfoldable pub get_action : String → String
unfolding second_part split_on
get_action permission = second_part (split_on b':' permission)

module _ (ctx : Context) (target : Order) where
  -- The branch of `action == "view"`.
  view_order : Bool
  view_order =
      if has_permission ctx scope_all_view || has_permission ctx scope_all
      then true
      else if has_permission ctx scope_department
          && both_equal ctx.actor.department_id target.department_id
      then true
      else if has_permission ctx scope_branch && both_equal ctx.actor.branch_id target.branch_id
      then true
      else if has_permission ctx scope_otdel && both_equal ctx.actor.otdel_id target.otdel_id
      then true
      else if has_permission ctx scope_office && both_equal ctx.actor.office_id target.office_id
      then true
      else if has_permission ctx scope_own
      then (target.creator_id == ctx.actor.id
          || points_to target.executor_id ctx.actor.id
          || ctx.is_participant)
      else false

  -- Every other action.
  change_order : Bool
  change_order =
      if has_permission ctx scope_all
      then true
      else if has_permission ctx orders_update_in_department_scope
          && both_equal ctx.actor.department_id target.department_id
      then true
      else if has_permission ctx orders_update_in_branch_scope
          && both_equal ctx.actor.branch_id target.branch_id
      then true
      else if has_permission ctx orders_update_in_otdel_scope
          && both_equal ctx.actor.otdel_id target.otdel_id
      then true
      else if has_permission ctx orders_update_in_office_scope
          && both_equal ctx.actor.office_id target.office_id
      then true
      else if has_permission ctx orders_update
      then (target.creator_id == ctx.actor.id || points_to target.executor_id ctx.actor.id)
      else false

  unfoldable pub can_access_order : Bool
  unfolding view_order change_order
  can_access_order =
      if str_eq (get_action ctx.current_permission) "view" then view_order else change_order

module _ (ctx : Context) (target : User) where
  unfoldable pub can_access_user : Bool
  can_access_user =
      if ctx.actor.id == target.id
      then true
      else if has_permission ctx scope_all
      then true
      else if str_eq (get_action ctx.current_permission) "view"
      then true
      else if has_permission ctx scope_department
          && both_equal ctx.actor.department_id target.department_id
      then true
      else if has_permission ctx scope_branch && both_equal ctx.actor.branch_id target.branch_id
      then true
      else if has_permission ctx scope_office && both_equal ctx.actor.office_id target.office_id
      then true
      else if has_permission ctx scope_otdel && both_equal ctx.actor.otdel_id target.otdel_id
      then true
      else false

access_target : Context → Target → Bool
access_target ctx no_target = true
access_target ctx (order_target o) = can_access_order ctx o
access_target ctx (user_target u) = can_access_user ctx u
access_target ctx other_target = false

unfoldable pub can_do : String → Context → Bool
unfolding access_target
can_do permission c =
    let ctx = record c { current_permission = permission } in
    if has_permission ctx permission then access_target ctx ctx.target else false

pub view_action : get_action "order:view" ≡ "view"
unfolding get_action
view_action = refl
