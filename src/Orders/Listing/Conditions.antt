-- ===== src/Orders/Listing/Conditions.antt =====
-- The conditions of the list against the decision of the engine on a single order.
use request_system.Common.{
  ℕ, Bool, true, false, ◌&&◌, ◌||◌, Option, none, some, List, [], ◌∷◌, ◌++◌, ◌≡◌, refl, ◌∙◌, sym,
  ap, arith, any, both_equal, points_to, ◌==◌, if◌then◌else◌,
}
use request_system.Entities.{Order}
use request_system.Authz.{
  Context, order_target, has_permission, can_do, can_access_order, get_action,
}
use request_system.Authz.Permissions.{
  orders_view, scope_own, scope_otdel, scope_office, scope_branch, scope_department, scope_all,
  scope_all_view,
}
use request_system.Orders.Store.{Store}
use request_system.Orders.Listing.{
  Scope, in_scope, took_part, scope_conditions, sees_all, unit_condition, when,
}

any-append :
    {A : Type 0} (p : A → Bool) (xs ys : List A) → any p (xs ++ ys) ≡ (any p xs || any p ys)
any-append p [] ys = refl
any-append p (x ∷ xs) ys = ground (arith, any-append p xs ys)

unit_lem :
    (column : Option ℕ) (n : ℕ) (b : Bool)
    → b ≡ points_to column n
    → (b || false) ≡ both_equal (some n) column
unit_lem none n b h = ground arith
unit_lem (some m) n b h = ground arith

-- The engine's ladder and the disjunction of the list, over the same tests.
ladder :
    (a v d b t f w c e h : Bool)
    → (if v || a
        then true
        else if d
        then true
        else if b
        then true
        else if t
        then true
        else if f
        then true
        else if w
        then (c || e || h)
        else false)
      ≡ ((a || v) || (d || b || t || f || (w && (c || (e || (h || false))))))
ladder a v d b t f w c e h = ground arith

-- The context of the engine's decision on one order of the list.
abbrev pub about : Store → Context → Order → Context
about s ctx o = record ctx { target = order_target o; is_participant = took_part s ctx.actor.id o }

module _ (s : Store) (ctx : Context) (o : Order) where
  any-unit_condition :
      (allowed : Bool) (unit column : Option ℕ) (make : ℕ → Scope)
      → ((n : ℕ) → in_scope s o (make n) ≡ points_to column n)
      → any (in_scope s o) (unit_condition allowed unit make) ≡ (allowed && both_equal unit column)
  any-unit_condition allowed none column make h = ground arith
  any-unit_condition true (some n) column make h = unit_lem column n (in_scope s o (make n)) (h n)
  any-unit_condition false (some n) column make h = ground arith

  any-when :
      (allowed : Bool) (cs : List Scope)
      → any (in_scope s o) (when allowed cs) ≡ (allowed && any (in_scope s o) cs)
  any-when true cs = refl
  any-when false cs = refl

  any-scope_conditions : any (in_scope s o) (scope_conditions ctx) ≡ (
      (has_permission ctx scope_department && both_equal ctx.actor.department_id o.department_id)
      || (has_permission ctx scope_branch && both_equal ctx.actor.branch_id o.branch_id)
      || (has_permission ctx scope_otdel && both_equal ctx.actor.otdel_id o.otdel_id)
      || (has_permission ctx scope_office && both_equal ctx.actor.office_id o.office_id)
      || (has_permission ctx scope_own
          && (o.creator_id == ctx.actor.id
              || (points_to o.executor_id ctx.actor.id || (took_part s ctx.actor.id o || false)))))
  unfolding scope_conditions
  any-scope_conditions =
      rw
        (
          any-append (in_scope s o) _ _,
          any-append (in_scope s o) _ _,
          any-append (in_scope s o) _ _,
          any-append (in_scope s o) _ _,
          any-unit_condition (has_permission ctx scope_department) ctx.actor.department_id
              o.department_id Scope.department_is (λ n. refl),
          any-unit_condition (has_permission ctx scope_branch) ctx.actor.branch_id o.branch_id
              Scope.branch_is (λ n. refl),
          any-unit_condition (has_permission ctx scope_otdel) ctx.actor.otdel_id o.otdel_id
              Scope.otdel_is (λ n. refl),
          any-unit_condition (has_permission ctx scope_office) ctx.actor.office_id o.office_id
              Scope.office_is (λ n. refl),
          any-when (has_permission ctx scope_own) _,
        )
        refl

  -- For a user with the permission to view orders, the conditions of the list hold of an order
  -- exactly when the engine lets the user view that order, the history saying whether the user took
  -- part in it.
  pub scope_conditions-can_do :
      has_permission ctx orders_view ≡ true
      → (sees_all ctx || any (in_scope s o) (scope_conditions ctx))
        ≡ can_do orders_view (about s ctx o)
  unfolding can_do can_access_order get_action
  scope_conditions-can_do h = rw h (
      ap (λ b. sees_all ctx || b) any-scope_conditions
      ∙ sym (
          ladder (has_permission ctx scope_all) (has_permission ctx scope_all_view)
            (has_permission ctx scope_department
              && both_equal ctx.actor.department_id o.department_id)
            (has_permission ctx scope_branch && both_equal ctx.actor.branch_id o.branch_id)
            (has_permission ctx scope_otdel && both_equal ctx.actor.otdel_id o.otdel_id)
            (has_permission ctx scope_office && both_equal ctx.actor.office_id o.office_id)
            (has_permission ctx scope_own) (o.creator_id == ctx.actor.id)
            (points_to o.executor_id ctx.actor.id) (took_part s ctx.actor.id o)))
