-- ===== src/Authz/Theorems.antt =====
-- What the engine of internal/authz/engine.go decides, said without its ladder of tests.
use request_system.Common.{
  Bool-cases, ||_mono, ℕ, String, ◌≡◌, refl, ◌≢◌, ◌↔◌, ◌⊎◌, inl, inr, Bool, true, false, ◌&&◌, ◌||◌,
  Option, some, List, eq_iff, str_eq, has_key, both_equal, both_equal_iff, points_to_iff, str_ne,
  if_mono, &&_mono, ==_iff, if◌then◌else◌,
}
use request_system.Entities.{User, Order}
use request_system.Authz.Permissions.{
  orders_update, scope_own, scope_otdel, scope_office, scope_branch, scope_department, scope_all,
  scope_all_view, orders_update_in_otdel_scope, orders_update_in_office_scope,
  orders_update_in_branch_scope, orders_update_in_department_scope,
}
use request_system.Authz.{
  Context, Target, no_target, other_target, order_target, user_target, has_permission, get_action,
  can_access_order, can_access_user, can_do, access_target, view_order, change_order,
}

abbrev pub Has : Context → String → Type 0
Has ctx p = has_permission ctx p ≡ true

-- Both sides name a unit, and it is the same one.
abbrev pub Shares : Option ℕ → Option ℕ → Type 0
Shares a b = (n : ℕ) × (a ≡ some n) × (b ≡ some n)

-- One `if … { return true }` of a ladder, read as a disjunction.
rung :
    (c rest : Bool) {A B : Type 0}
    → (c ≡ true) ↔ A
    → (rest ≡ true) ↔ B
    → ((if c then true else rest) ≡ true) ↔ (A ⊎ B)
rung true rest f g = (λ h. inl (f.0 refl), λ h. refl)
rung false rest f g = (λ h. inr (g.0 h), λ h. elim h [ inl a ↦ cc (f.1 a) | inr b ↦ g.1 b ])

last_rung_mono :
    (c c' d : Bool)
    → (c ≡ true → c' ≡ true)
    → (if c then d else false) ≡ true
    → (if c' then d else false) ≡ true
last_rung_mono true c' d f h = rw (f refl) h
last_rung_mono false c' d f h = cc

last_rung :
    (c d : Bool) {A B : Type 0}
    → (c ≡ true) ↔ A
    → (d ≡ true) ↔ B
    → ((if c then d else false) ≡ true) ↔ (A × B)
last_rung true d f g = (λ h. (f.0 refl, g.0 h), λ h. g.1 h.1)
last_rung false d f g = (λ h. cc, λ h. cc (f.1 h.0))

||_iff : (c d : Bool) {A B : Type 0} → (c ≡ true) ↔ A → (d ≡ true) ↔ B → ((c || d) ≡ true) ↔ (A ⊎ B)
||_iff true d f g = (λ h. inl (f.0 refl), λ h. refl)
||_iff false d f g = (λ h. inr (g.0 h), λ h. elim h [ inl a ↦ cc (f.1 a) | inr b ↦ g.1 b ])

-- A permission with a unit that the two sides share.
Shares-iff :
    (p : Bool) (a b : Option ℕ) → ((p && both_equal a b) ≡ true) ↔ ((p ≡ true) × Shares a b)
Shares-iff true a b = (λ h. (refl, (both_equal_iff a b).0 h), λ h. (both_equal_iff a b).1 h.1)
Shares-iff false a b = (λ h. cc, λ h. cc (h.0))

same {ℓ} : {A : Type ℓ} → A ↔ A
same = (λ a. a, λ a. a)

module _ (ctx : Context) (o : Order) where
  -- The actor made the order or is its executor now.
  abbrev pub Owns : Type 0
  Owns = (o.creator_id ≡ ctx.actor.id) ⊎ (o.executor_id ≡ some ctx.actor.id)

  abbrev pub MayView : Type 0
  MayView =
      (Has ctx scope_all_view ⊎ Has ctx scope_all)
      ⊎ (Has ctx scope_department × Shares ctx.actor.department_id o.department_id)
      ⊎ (Has ctx scope_branch × Shares ctx.actor.branch_id o.branch_id)
      ⊎ (Has ctx scope_otdel × Shares ctx.actor.otdel_id o.otdel_id)
      ⊎ (Has ctx scope_office × Shares ctx.actor.office_id o.office_id)
      ⊎ (Has ctx scope_own × (Owns ⊎ (ctx.is_participant ≡ true)))

  abbrev pub MayChange : Type 0
  MayChange =
      Has ctx scope_all
      ⊎ (Has ctx orders_update_in_department_scope × Shares ctx.actor.department_id o.department_id)
      ⊎ (Has ctx orders_update_in_branch_scope × Shares ctx.actor.branch_id o.branch_id)
      ⊎ (Has ctx orders_update_in_otdel_scope × Shares ctx.actor.otdel_id o.otdel_id)
      ⊎ (Has ctx orders_update_in_office_scope × Shares ctx.actor.office_id o.office_id)
      ⊎ (Has ctx orders_update × Owns)

  view_order_iff : (view_order ctx o ≡ true) ↔ MayView
  unfolding view_order
  view_order_iff = rung _ _ (||_iff _ _ same same) (
      rung _ _ (Shares-iff _ ctx.actor.department_id o.department_id) (
        rung _ _ (Shares-iff _ ctx.actor.branch_id o.branch_id) (
          rung _ _ (Shares-iff _ ctx.actor.otdel_id o.otdel_id) (
            rung _ _ (Shares-iff _ ctx.actor.office_id o.office_id) (
              last_rung _ _ same (
                ||_iff _ _
                  (||_iff _ _ (==_iff o.creator_id ctx.actor.id)
                    (points_to_iff o.executor_id ctx.actor.id))
                  same))))))

  change_order_iff : (change_order ctx o ≡ true) ↔ MayChange
  unfolding change_order
  change_order_iff = rung _ _ same (
      rung _ _ (Shares-iff _ ctx.actor.department_id o.department_id) (
        rung _ _ (Shares-iff _ ctx.actor.branch_id o.branch_id) (
          rung _ _ (Shares-iff _ ctx.actor.otdel_id o.otdel_id) (
            rung _ _ (Shares-iff _ ctx.actor.office_id o.office_id) (
              last_rung _ _ same (
                ||_iff _ _ (==_iff o.creator_id ctx.actor.id)
                  (points_to_iff o.executor_id ctx.actor.id)))))))

abbrev pub about_order : Context → Order → Context
about_order ctx o = record ctx { target = order_target o }

-- Asked for a viewing permission on an order, the engine says yes exactly when the actor has that
-- permission and one of the grounds of `MayView` holds: a global scope, a unit that both share under
-- the scope of that unit, or the own scope for the order's creator, executor or a participant.
pub can_do-view_iff :
    (p : String) (ctx : Context) (o : Order)
    → get_action p ≡ "view"
    → (can_do p (about_order ctx o) ≡ true) ↔ (Has ctx p × MayView ctx o)
unfolding can_do can_access_order
can_do-view_iff p ctx o h =
    rw h (last_rung _ _ same (view_order_iff (record ctx { current_permission = p }) o))

-- Asked for a permission on an order whose action is not to view, the engine says yes exactly when
-- the actor has that permission and one of the grounds of `MayChange` holds: the global scope, a
-- unit that both share under the update permission of that unit, or being the order's creator or
-- executor with the permission to update. Taking part in the order is not one.
pub can_do-change_iff :
    (p : String) (ctx : Context) (o : Order)
    → get_action p ≢ "view"
    → (can_do p (about_order ctx o) ≡ true) ↔ (Has ctx p × MayChange ctx o)
unfolding can_do can_access_order
can_do-change_iff p ctx o h =
    rw (str_ne _ _ h)
      (last_rung _ _ same (change_order_iff (record ctx { current_permission = p }) o))

module _ (ctx : Context) (u : User) where
  -- On what grounds an actor may act on another user's row.
  abbrev pub MayManage : Type 0
  MayManage =
      (ctx.actor.id ≡ u.id)
      ⊎ Has ctx scope_all
      ⊎ (get_action ctx.current_permission ≡ "view")
      ⊎ (Has ctx scope_department × Shares ctx.actor.department_id u.department_id)
      ⊎ (Has ctx scope_branch × Shares ctx.actor.branch_id u.branch_id)
      ⊎ (Has ctx scope_office × Shares ctx.actor.office_id u.office_id)
      ⊎ (Has ctx scope_otdel × Shares ctx.actor.otdel_id u.otdel_id)

  final_rung : (c : Bool) {A : Type 0} → (c ≡ true) ↔ A → ((if c then true else false) ≡ true) ↔ A
  final_rung true f = f
  final_rung false f = f

  can_access_user_iff : (can_access_user ctx u ≡ true) ↔ MayManage
  unfolding can_access_user
  can_access_user_iff = rung _ _ (==_iff ctx.actor.id u.id) (
      rung _ _ same (
        rung _ _ (eq_iff (get_action ctx.current_permission) "view") (
          rung _ _ (Shares-iff _ ctx.actor.department_id u.department_id) (
            rung _ _ (Shares-iff _ ctx.actor.branch_id u.branch_id) (
              rung _ _ (Shares-iff _ ctx.actor.office_id u.office_id)
                (final_rung _ (Shares-iff _ ctx.actor.otdel_id u.otdel_id)))))))

-- Asked for a permission on a user, the engine says yes exactly when the actor has that permission
-- and is that user, has the global scope, only looks, or shares a unit with the user under the
-- scope of that unit.
pub can_do-user_iff :
    (p : String) (ctx : Context) (u : User)
    → (can_do p (record ctx { target = user_target u }) ≡ true)
      ↔ (Has ctx p × MayManage (record ctx { current_permission = p }) u)
unfolding can_do
can_do-user_iff p ctx u =
    last_rung _ _ same
      (can_access_user_iff (record ctx { current_permission = p; target = user_target u }) u)

-- Another list of permissions that holds every key of the first.
module _ (ctx : Context) (more : List String)
    (keeps : (k : String) → has_key k ctx.permissions ≡ true → has_key k more ≡ true) where
  grown : Context
  grown = record ctx { permissions = more }

  view_order_mono : (o : Order) → view_order ctx o ≡ true → view_order grown o ≡ true
  unfolding view_order grown
  view_order_mono o = if_mono _ _ _ _ (||_mono _ _ _ _ (keeps scope_all_view) (keeps scope_all)) (
      if_mono _ _ _ _ (&&_mono _ _ _ (keeps scope_department)) (
        if_mono _ _ _ _ (&&_mono _ _ _ (keeps scope_branch)) (
          if_mono _ _ _ _ (&&_mono _ _ _ (keeps scope_otdel)) (
            if_mono _ _ _ _ (&&_mono _ _ _ (keeps scope_office))
              (last_rung_mono _ _ _ (keeps scope_own))))))

  change_order_mono : (o : Order) → change_order ctx o ≡ true → change_order grown o ≡ true
  unfolding change_order grown
  change_order_mono o = if_mono _ _ _ _ (keeps scope_all) (
      if_mono _ _ _ _ (&&_mono _ _ _ (keeps orders_update_in_department_scope)) (
        if_mono _ _ _ _ (&&_mono _ _ _ (keeps orders_update_in_branch_scope)) (
          if_mono _ _ _ _ (&&_mono _ _ _ (keeps orders_update_in_otdel_scope)) (
            if_mono _ _ _ _ (&&_mono _ _ _ (keeps orders_update_in_office_scope))
              (last_rung_mono _ _ _ (keeps orders_update))))))

  can_access_order_mono :
      (o : Order) → can_access_order ctx o ≡ true → can_access_order grown o ≡ true
  unfolding can_access_order grown
  can_access_order_mono o h =
      elim (Bool-cases (str_eq (get_action ctx.current_permission) "view")) [
        | inl e ↦ rw e (view_order_mono o (rw e at h))
        | inr e ↦ rw e (change_order_mono o (rw e at h))
      ]

  can_access_user_mono : (u : User) → can_access_user ctx u ≡ true → can_access_user grown u ≡ true
  unfolding can_access_user grown
  can_access_user_mono u =
      if_mono _ _ _ _ (λ h. h)
        (if_mono _ _ _ _ (keeps scope_all) (
          if_mono _ _ _ _ (λ h. h)
            (if_mono _ _ _ _ (&&_mono _ _ _ (keeps scope_department)) (
              if_mono _ _ _ _ (&&_mono _ _ _ (keeps scope_branch)) (
                if_mono _ _ _ _ (&&_mono _ _ _ (keeps scope_office))
                  (if_mono _ _ _ _ (&&_mono _ _ _ (keeps scope_otdel)) (λ h. h)))))))

  access_target_mono : (t : Target) → access_target ctx t ≡ true → access_target grown t ≡ true
  unfolding access_target
  access_target_mono no_target h = refl
  access_target_mono (order_target o) h = can_access_order_mono o h
  access_target_mono (user_target u) h = can_access_user_mono u h
  access_target_mono other_target h = h

-- Granting more permissions never takes an access away, whatever the permission and the target.
pub can_do_mono :
    (p : String) (ctx : Context) (more : List String)
    → ((k : String) → has_key k ctx.permissions ≡ true → has_key k more ≡ true)
    → can_do p ctx ≡ true
    → can_do p (record ctx { permissions = more }) ≡ true
unfolding can_do grown
can_do_mono p ctx more keeps h = elim (Bool-cases (has_permission ctx p)) [
  | inl e ↦
      rw (keeps p e) (
        access_target_mono (record ctx { current_permission = p }) more keeps ctx.target
          (rw e at h))
  | inr e ↦ cc (let g : false ≡ true = rw e at h in g)
]
