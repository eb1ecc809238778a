-- ===== src/Orders/Create/Outcome.antt =====
-- A creation from the request to the response.
use request_system.Common.{
  ℕ, Bool, true, false, Option, some, [], ◌∷◌, ◌++◌, ◌≡◌, refl, ◌∙◌, sym, ap, subst, arith, ◌≢◌,
}
use request_system.Entities.{Order, Status}
use request_system.Errors.{ok, err_forbidden}
use request_system.Authz.{Context, can_do}
use request_system.Authz.Permissions.{orders_create}
use request_system.Orders.Store.{
  Store, World, lift, guard, modify, inserted, is_live, run_in_transaction,
  invalidate_dashboard_cache,
}
use request_system.Orders.Store.Leaves.{
  Leaves, Leaves-guard, Leaves-lift, Leaves-pure, Leaves-bind, Returns, Returns-bind, Returns-pure,
  >>=-eq-ok,
}
use request_system.Orders.Store.Transactions.{run_in_transaction_ok, begun}
use request_system.Orders.Access.{
  acting_user, build_authz_context, build_authz_context_without_target, find_order_by_id,
}
use request_system.Orders.Access.Reading.{
  store_of, build_authz_context-Leaves, find_order_by_id-Leaves,
}
use request_system.Orders.Access.Visibility.{find_order_by_id_sound}
use request_system.Orders.History.{Directory, File}
use request_system.Orders.Requests.{
  RequestContext, CreateOrderDto, RuleEngine, RoutingResult, OrderResponse,
}
use request_system.Orders.Create.{new_order, create_in_tx, admit_creation, create_order}
use request_system.Orders.Create.Effects.{create_in_tx_creates}

is_live-id : (id : ℕ) (o : Order) → is_live id o ≡ true → o.id ≡ id
is_live-id id o h = ground arith

module _ (w : World) (dir : Directory) (engine : RuleEngine) (rc : RequestContext) where
  -- The user who acts is the one who asks, and may create orders.
  abbrev pub Admitted : Context → Type 0
  Admitted auth =
      (acting_user w dir rc ≡ ok (auth.actor, auth.permissions))
      × (can_do orders_create auth ≡ true)

  admit_creation-Leaves :
      (d : CreateOrderDto) (file : Option File)
      → Leaves store_of (admit_creation w dir engine rc d file)
  unfolding admit_creation
  admit_creation-Leaves d file =
      Leaves-bind store_of _ _ (build_authz_context-Leaves w dir rc 0) λ auth.
        Leaves-bind store_of _ _ (Leaves-guard store_of _ _) λ _.
          Leaves-bind store_of _ _ (Leaves-lift store_of _) λ _.
            Leaves-bind store_of _ _ (Leaves-lift store_of _) λ _.
              Leaves-bind store_of _ _ (Leaves-guard store_of _ _) λ _. Leaves-pure store_of auth

  asks-Returns :
      Returns
        (λ (auth : Context). acting_user w dir rc ≡ ok (auth.actor, auth.permissions))
        (build_authz_context w dir rc 0)
  unfolding build_authz_context build_authz_context_without_target lift
  asks-Returns = Returns-bind _ (lift (acting_user w dir rc)) _ λ p s done. Returns-pure _ _ done

  guarded : (b : Bool) (s : Store) (u : Unit {0}) → (guard b err_forbidden s).0 ≡ ok u → b ≡ true
  unfolding guard
  guarded true s u h = refl
  guarded false s u h = cc

  admit_creation-Returns :
      (d : CreateOrderDto) (file : Option File)
      → Returns Admitted (admit_creation w dir engine rc d file)
  unfolding admit_creation
  admit_creation-Returns d file = Returns-bind _ _ _ λ auth s asked. Returns-bind _ _ _ λ u s' may.
      Returns-bind _ _ _ λ _ _ _. Returns-bind _ _ _ λ _ _ _. Returns-bind _ _ _ λ _ _ _.
        Returns-pure Admitted auth
          (asks-Returns.at s auth asked, guarded (can_do orders_create auth) s' u may)

  -- A creation that succeeds was asked for by a user who may create orders. It has added exactly
  -- one row to the orders, at the end and under the next id: the order of the request with the
  -- status OPEN, made by that user. The response shows the order with this id.
  pub create_order_creates :
      (d : CreateOrderDto) (file : Option File) (s : Store) (resp : OrderResponse) (t : Store)
      → create_order w dir engine rc d file s ≡ (ok resp, t)
      → (auth : Context) × Admitted auth
        × (routing : RoutingResult) × (status : Status) × (dir.find_status_by_code "OPEN"
            ≡ some status)
        × (routing.executor.id ≢ 0)
        × (t.db.orders
            ≡ s.db.orders
              ++ inserted w
                  (new_order d status.id auth.actor.id routing.executor.id)
                  s.next_order_id
                  (w.clock s.reads)
                ∷ [])
        × (resp.order.id ≡ s.next_order_id)
  unfolding create_order modify invalidate_dashboard_cache
  create_order_creates d file s resp t e =
      let (auth, admitted, e1) = >>=-eq-ok (admit_creation w dir engine rc d file) _ s resp t e in
      let s0 = (admit_creation w dir engine rc d file s).1 in
      let tx = run_in_transaction w (create_in_tx w dir engine rc d file auth.actor) in
      let (id, done, e2) = >>=-eq-ok tx _ s0 resp t e1 in
      let s1 = (tx s0).1 in
      let (routing, status, resolved, opened, known, grown, next) =
        create_in_tx_creates w dir engine rc d file auth.actor (begun w s0) id s1 (
          run_in_transaction_ok w (create_in_tx w dir engine rc d file auth.actor) s0 id s1
            (λ i. (done i, s1))) in
      let (u, _, e3) =
        >>=-eq-ok (modify (invalidate_dashboard_cache w true true))
          (λ _. find_order_by_id w dir rc id) s1 resp t e2 in
      let s2 = invalidate_dashboard_cache w true true s1 in
      let kept : t ≡ s2 = sym (ap (λ p. p.1) e3) ∙ (find_order_by_id-Leaves w dir rc id).at s2 in
      let same : s0 ≡ s = (admit_creation-Leaves d file).at s in
      let (m, live, by) = find_order_by_id_sound w dir rc id s2 resp (ap (λ p. p.0) e3) in
      (
        auth,
        (admit_creation-Returns d file).at s auth admitted,
        routing,
        status,
        opened,
        known,
        subst
            (λ (x : Store).
              t.db.orders
              ≡ x.db.orders
                ++ inserted w (new_order d status.id auth.actor.id routing.executor.id)
                    x.next_order_id (w.clock x.reads)
                  ∷ [])
            same (ap (λ (x : Store). x.db.orders) kept ∙ grown),
        is_live-id id resp.order live ∙ next ∙ ap (λ (x : Store). x.next_order_id) same,
      )
