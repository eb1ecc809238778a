-- ===== src/Routing/Reassignment.antt =====
-- `applyUpdateExecutorRouting` of internal/services/order_service_validation.go with the rule engine
-- of this repository: who executes an order after an update.
use request_system.Common.{
  ℕ, Bool, true, false, none, some, Bool-cases, ◌≡◌, refl, sym, ◌∙◌, ap, inl, inr, ◌⊎◌,
}
use request_system.Entities.{Order, User}
use request_system.Errors.{Error, Result, ok, err}
use request_system.Authz.{Context, can_do}
use request_system.Orders.Patch.{Fields, lookup}
use request_system.Orders.History.{structure_differs}
use request_system.Orders.Requests.{UpdateOrderDto, RoutingResult}
use request_system.Orders.Validation.{
  apply_update_executor_routing, selects_executor, require, routing_context, wrap_failure,
}
use request_system.Orders.Validation
use request_system.Routing.People.{Organisation}
use request_system.Routing.Engine.{resolve_executor}
use request_system.Routing.Theorems.{
  Eligible, Staffed, rule_engine, resolve_executor_explicit, resolve_executor_automatic,
}

abbrev assign_to : Order → Result RoutingResult → Result (Order × Bool)
assign_to updated r =
    Validation.◌>>=◌ {B = Order × Bool} r
      (λ x. ok (record updated { executor_id = some x.executor.id }, true))

module _ (updated routed : Order) (changed : Bool) where
  assigned :
      (r : Result RoutingResult)
      → assign_to updated r ≡ ok (routed, changed)
      → (x : RoutingResult) × (r ≡ ok x)
        × (routed ≡ record updated { executor_id = some x.executor.id })
        × (changed ≡ true)
  assigned (ok x) h = (x, refl, cc, cc)
  assigned (err e) h = cc

  required :
      (b : Bool) (e : Error) (r : Result RoutingResult)
      → Validation.◌>>=◌ (require b e) (λ _. assign_to updated r) ≡ ok (routed, changed)
      → (b ≡ true) × (assign_to updated r ≡ ok (routed, changed))
  required true e r h = (refl, h)
  required false e r h = cc

  wrapped :
      (r : Result RoutingResult) (x : RoutingResult) → wrap_failure updated r ≡ ok x → r ≡ ok x
  wrapped (ok y) x h = cc
  wrapped (err e) x h = cc

-- The user is named by the request, fit for the order's place, and naming was permitted; or the
-- order's place changed, or the request named nobody, and the user is found by the engine.
abbrev pub Chosen : Organisation → Context → Order → Order → UpdateOrderDto → Fields → User → Type 0
Chosen org auth current updated d fields u =
    ((selects_executor (lookup "executor_id" fields) ≡ true)
      × (can_do "order:update:executor_id" auth ≡ true)
      × ((id : ℕ) → d.executor_id ≡ some id → Eligible org id (routing_context updated) u)
      × (d.executor_id ≡ none → Staffed org u))
    ⊎ ((selects_executor (lookup "executor_id" fields) ≡ false)
        × (structure_differs current updated ≡ true)
        × Staffed org u)

module _ (org : Organisation) (auth : Context) (current updated : Order) (d : UpdateOrderDto)
    (fields : Fields) (routed : Order) (changed : Bool) where
  abbrev Assigned : Type 0
  Assigned =
      (u : User) × Chosen org auth current updated d fields u
      × (routed ≡ record updated { executor_id = some u.id })
      × (changed ≡ true)

  module _
      (done : apply_update_executor_routing (rule_engine org) auth current updated d fields
        ≡ ok (routed, changed)) where
    by_hand : selects_executor (lookup "executor_id" fields) ≡ true → Assigned
    unfolding apply_update_executor_routing
    by_hand sel =
        let c = routing_context updated in
        let (may, e) =
          required updated routed changed _ _ _ (rw (sel, apply_update_executor_routing) at done) in
        let (x, r, eq, was) =
          assigned updated routed changed (resolve_executor org c d.executor_id) e in
        let chosen : Chosen org auth current updated d fields x.executor = inl (
          sel,
          may,
          λ id named.
              resolve_executor_explicit org id c x (ap (resolve_executor org c) (sym named) ∙ r),
          λ unnamed.
              resolve_executor_automatic org c x (ap (resolve_executor org c) (sym unnamed) ∙ r),
        ) in
        (x.executor, chosen, eq, was)

    by_place :
        selects_executor (lookup "executor_id" fields) ≡ false
        → structure_differs current updated ≡ true
        → Assigned
    unfolding apply_update_executor_routing
    by_place sel moved =
        let c = routing_context updated in
        let (x, r, eq, was) =
          assigned updated routed changed (wrap_failure updated (resolve_executor org c none))
            (rw (sel, moved, apply_update_executor_routing) at done) in
        let found = wrapped updated routed changed _ x r in
        (x.executor, inr (sel, moved, resolve_executor_automatic org c x found), eq, was)

    kept :
        selects_executor (lookup "executor_id" fields) ≡ false
        → structure_differs current updated ≡ false
        → (routed ≡ updated) × (changed ≡ false)
    unfolding apply_update_executor_routing
    kept sel still =
        let e : ◌≡◌ {A = Result (Order × Bool)} (ok (updated, false)) (ok (routed, changed)) =
          rw (sel, still, apply_update_executor_routing) at done in
        (cc, cc)

    -- An update whose executor is settled either gives the order to one user and touches nothing
    -- else of it, or leaves it. The user is the one that the request names, who is found undeleted
    -- and active in the order's new place, and naming was permitted; or an employee who works here,
    -- when the request names nobody and the order has moved, or sends the key without a number for
    -- an executor. It is left exactly when nobody is named and the place is the same.
    pub apply_update_executor_routing_assigns :
        ((u : User) × Chosen org auth current updated d fields u
          × (routed ≡ record updated { executor_id = some u.id })
          × (changed ≡ true))
        ⊎ ((selects_executor (lookup "executor_id" fields) ≡ false)
            × (structure_differs current updated ≡ false)
            × (routed ≡ updated)
            × (changed ≡ false))
    apply_update_executor_routing_assigns =
        elim (Bool-cases (selects_executor (lookup "executor_id" fields))) [
          | inl sel ↦ inl (by_hand sel)
          | inr sel ↦ elim (Bool-cases (structure_differs current updated)) [
            | inl moved ↦ inl (by_place sel moved)
            | inr still ↦ let (same, quiet) = kept sel still in inr (sel, still, same, quiet)
          ]
        ]
