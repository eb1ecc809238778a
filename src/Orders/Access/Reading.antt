-- ===== src/Orders/Access/Reading.antt =====
-- Asking for an order, and being admitted to one, changes nothing.
use request_system.Common.{ℕ, ◌≡◌, refl, ◌==◌, ap, subst}
use request_system.Entities.{Order}
use request_system.Errors.{ok, err_forbidden}
use request_system.Authz.{Target, no_target, order_target, user_target, other_target, can_do}
use request_system.Authz.Permissions.{orders_view}
use request_system.Orders.Store.{Store, World, M, ◌>>=◌, find_by_id, find_order}
use request_system.Orders.Store.Leaves.{
  Leaves, Leaves-pure, Leaves-fail, Leaves-lift, Leaves-guard, Leaves-attempt, Leaves-bind,
  Leaves-if, >>=-eq-ok,
}
use request_system.Orders.History.{Directory}
use request_system.Orders.Requests.{RequestContext}
use request_system.Orders.Access.{
  build_authz_context_with_target, build_authz_context_without_target, build_authz_context,
  acting_user, target_order, find_order_by_id,
}

abbrev pub store_of : Store → Store
store_of s = s

pub find_by_id-Leaves : (w : World) (id : ℕ) → Leaves store_of (find_by_id w id)
unfolding find_by_id
find_by_id-Leaves w id =
    Leaves-bind store_of _ _ (Leaves-attempt store_of w (find_order id))
      λ _. record { at = λ s. refl }

module _ (w : World) (dir : Directory) (rc : RequestContext) where
  pub build_authz_context_with_target-Leaves :
      (o : Order) → Leaves store_of (build_authz_context_with_target w dir rc o)
  unfolding build_authz_context_with_target
  build_authz_context_with_target-Leaves o =
      Leaves-bind store_of _ _ (Leaves-lift store_of (acting_user w dir rc))
        λ p. record { at = λ s. refl }

  pub build_authz_context_without_target-Leaves :
      Leaves store_of (build_authz_context_without_target w dir rc)
  unfolding build_authz_context_without_target
  build_authz_context_without_target-Leaves =
      Leaves-bind store_of _ _ (Leaves-lift store_of (acting_user w dir rc))
        λ p. Leaves-pure store_of _

  pub build_authz_context-Leaves : (id : ℕ) → Leaves store_of (build_authz_context w dir rc id)
  unfolding build_authz_context
  build_authz_context-Leaves id =
      Leaves-if store_of (id == 0) _ _ build_authz_context_without_target-Leaves (
        Leaves-bind store_of _ _ (find_by_id-Leaves w id)
          λ o. build_authz_context_with_target-Leaves o)

  pub target_order-Leaves : (t : Target) → Leaves store_of (target_order w dir rc t)
  unfolding target_order
  target_order-Leaves (order_target o) = Leaves-pure store_of o
  target_order-Leaves no_target = Leaves-fail store_of _
  target_order-Leaves (user_target u) = Leaves-fail store_of _
  target_order-Leaves other_target = Leaves-fail store_of _

  pub find_order_by_id-Leaves : (id : ℕ) → Leaves store_of (find_order_by_id w dir rc id)
  unfolding find_order_by_id
  find_order_by_id-Leaves id = Leaves-bind store_of _ _ (build_authz_context-Leaves id) λ auth.
      Leaves-bind store_of _ _ (Leaves-guard store_of (can_do orders_view auth) err_forbidden) λ _.
        Leaves-bind store_of _ _ (target_order-Leaves auth.target) λ o. record { at = λ s. refl }

-- A chain whose first step changes nothing gives a result that both steps gave in the same store.
pub gives-bind :
    {A C : Type 0} (m : M A) (k : A → M C) (s : Store) (c : C)
    → Leaves store_of m
    → ((m >>= k) s).0 ≡ ok c
    → (a : A) × ((m s).0 ≡ ok a) × ((k a s).0 ≡ ok c)
gives-bind m k s c h e =
    let (a, done, rest) = >>=-eq-ok m k s c ((m >>= k) s).1 (λ i. (e i, ((m >>= k) s).1)) in
    (a, done, subst (λ t. (k a t).0 ≡ ok c) (h.at s) (ap (λ p. p.0) rest))
