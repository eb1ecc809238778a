-- ===== src/Orders/Access/Visibility.antt =====
-- Who is shown an order, and what a deletion does.
use request_system.Common.{
  ℕ, Bool, true, false, ◌||◌, Option, none, some, ◌≡◌, refl, ◌∙◌, sym, ap, subst, ◌≢◌, ◌==◌, In,
  find_sound, Bool-cases, inl, inr, points_to,
}
use request_system.Entities.{Order}
use request_system.Errors.{Result, Error, ok, err, err_forbidden, err_not_found}
use request_system.Authz.{
  Context, Target, order_target, no_target, user_target, other_target, can_do, view_action,
}
use request_system.Authz.Permissions.{orders_view}
use request_system.Authz.Theorems.{can_do-view_iff, Has, MayView}
use request_system.Orders.Store.{
  Store, World, find_by_id, find_order, is_live, is_user_participant, fail, pure, guard, lift,
  attempt,
}
use request_system.Orders.Store.Leaves.{Leaves-attempt, Leaves-lift, Leaves-guard}
use request_system.Orders.Access.Reading.{
  store_of, gives-bind, target_order-Leaves, build_authz_context-Leaves, find_by_id-Leaves,
}
use request_system.Orders.History.{Directory}
use request_system.Orders.Requests.{RequestContext, OrderResponse}
use request_system.Orders.Access.{
  acting_user, asking_id, build_authz_context, build_authz_context_with_target,
  build_authz_context_without_target, target_order, find_order_by_id, to_response_dto,
}

find-sent :
    (o : Order) (x : Option Order)
    → (elim x as (λ _. Result Order) [ none ↦ err err_not_found | some a ↦ ok a ]) ≡ ok o
    → x ≡ some o
find-sent o none h = cc
find-sent o (some a) h = cc

find_by_id-found :
    (w : World) (id : ℕ) (s : Store) (o : Order)
    → (find_by_id w id s).0 ≡ ok o
    → In o s.db.orders × (is_live id o ≡ true)
unfolding find_by_id
find_by_id-found w id s o h =
    let (u, done, e) =
      gives-bind (attempt w (find_order id)) _ s o (Leaves-attempt store_of w _) h in
    let (live, m) = find_sound (is_live id) s.db.orders o (find-sent o _ e) in (m, live)

guard-true : (b : Bool) (e : Error) (s : Store) (u : Unit {0}) → (guard b e s).0 ≡ ok u → b ≡ true
unfolding guard
guard-true true e s u h = refl
guard-true false e s u h = cc

order_target_inj : {a b : Order} → order_target a ≡ order_target b → a ≡ b
order_target_inj e = cc

no_target_apart : {o : Order} → no_target ≢ order_target o
no_target_apart e = cc

ok_inj : {A : Type 0} {a b : A} → ◌≡◌ {A = Result A} (ok a) (ok b) → a ≡ b
ok_inj e = cc

may_view :
    (ctx : Context) (o : Order)
    → ctx.target ≡ order_target o
    → can_do orders_view ctx ≡ true
    → Has ctx orders_view × MayView ctx o
may_view ctx o at h =
    (can_do-view_iff orders_view ctx o view_action).0
      (subst (λ c. can_do orders_view c ≡ true) (λ i. record ctx { target = at i }) h)

module _ (w : World) (dir : Directory) (rc : RequestContext) where
  -- The user who asks made the order, executes it, or stands in its history.
  abbrev pub takes_part : Order → Store → Bool
  takes_part o s =
      o.creator_id == asking_id w dir rc
      || points_to o.executor_id (asking_id w dir rc)
      || is_user_participant w o.id (asking_id w dir rc) s

  -- The context of a decision about the order is that of the user who asks.
  abbrev pub Asks : Store → Order → Context → Type 0
  Asks s o ctx =
      (acting_user w dir rc ≡ ok (ctx.actor, ctx.permissions))
      × (ctx.is_participant ≡ takes_part o s)

  build_authz_context_with_target-found :
      (target o : Order) (s : Store) (ctx : Context)
      → (build_authz_context_with_target w dir rc target s).0 ≡ ok ctx
      → ctx.target ≡ order_target o
      → (target ≡ o) × Asks s o ctx
  unfolding build_authz_context_with_target lift
  build_authz_context_with_target-found target o s ctx h t =
      let (p, done, e) =
        gives-bind (lift (acting_user w dir rc)) _ s ctx (Leaves-lift store_of _) h in
      let c = ok_inj e in
      let same = order_target_inj (ap (λ x. x.target) c ∙ t) in
      (
        same,
        (
          done ∙ ap (λ x. ok (x.actor, x.permissions)) c,
          sym (ap (λ x. x.is_participant) c) ∙ ap (λ x. takes_part x s) same,
        ),
      )

  without_target-found :
      (o : Order) (s : Store) (ctx : Context)
      → (build_authz_context_without_target w dir rc s).0 ≡ ok ctx
      → ctx.target ≢ order_target o
  unfolding build_authz_context_without_target pure
  without_target-found o s ctx h t =
      let (p, done, e) =
        gives-bind (lift (acting_user w dir rc)) _ s ctx (Leaves-lift store_of _) h in
      no_target_apart (ap (λ x. x.target) (ok_inj e) ∙ t)

  build_authz_context-found :
      (order_id : ℕ) (o : Order) (s : Store) (ctx : Context)
      → (build_authz_context w dir rc order_id s).0 ≡ ok ctx
      → ctx.target ≡ order_target o
      → In o s.db.orders × (is_live order_id o ≡ true) × Asks s o ctx
  unfolding build_authz_context
  build_authz_context-found order_id o s ctx h t = elim (Bool-cases (order_id == 0)) [
    | inl zero ↦ absurd (without_target-found o s ctx (rw (zero, build_authz_context) at h) t)
    | inr other ↦
        let (x, found, e) =
          gives-bind (find_by_id w order_id) (build_authz_context_with_target w dir rc) s ctx
            (find_by_id-Leaves w order_id) (rw (other, build_authz_context) at h) in
        let (m, live) = find_by_id-found w order_id s x found in
        let (same, asks) = build_authz_context_with_target-found x o s ctx e t in
        (
          subst (λ y. In y s.db.orders) same m,
          subst (λ y. is_live order_id y ≡ true) same live,
          asks,
        )
  ]

  target_order-found :
      (t : Target) (o : Order) (s : Store)
      → (target_order w dir rc t s).0 ≡ ok o
      → t ≡ order_target o
  unfolding target_order fail pure
  target_order-found (order_target x) o s h = cc
  target_order-found no_target o s h = cc
  target_order-found (user_target u) o s h = cc
  target_order-found other_target o s h = cc

  -- An order that is shown is a live row with the id asked for, and the user who asks has the
  -- permission to view orders and one of the grounds of `MayView` on this one.
  pub find_order_by_id_sound :
      (order_id : ℕ) (s : Store) (resp : OrderResponse)
      → (find_order_by_id w dir rc order_id s).0 ≡ ok resp
      → In resp.order s.db.orders
        × (is_live order_id resp.order ≡ true)
        × ((ctx : Context) × Asks s resp.order ctx × Has ctx orders_view × MayView ctx resp.order)
  unfolding find_order_by_id to_response_dto
  find_order_by_id_sound order_id s resp h =
      let (ctx, built, e) =
        gives-bind (build_authz_context w dir rc order_id) _ s resp
          (build_authz_context-Leaves w dir rc order_id) h in
      let (u, may, e') =
        gives-bind (guard (can_do orders_view ctx) err_forbidden) _ s resp
          (Leaves-guard store_of _ _) e in
      let (o, got, e'') =
        gives-bind (target_order w dir rc ctx.target) _ s resp
          (target_order-Leaves w dir rc ctx.target) e' in
      let at = target_order-found ctx.target o s got in
      let shown : o ≡ resp.order = ap (λ r. r.order) (ok_inj e'') in
      let (m, live, asks) = build_authz_context-found order_id o s ctx built at in
      let (has, view) =
        may_view ctx o at (guard-true (can_do orders_view ctx) err_forbidden s u may) in
      subst
        (λ x.
          In x s.db.orders
          × (is_live order_id x ≡ true)
          × ((ctx : Context) × Asks s x ctx × Has ctx orders_view × MayView ctx x))
        shown (m, live, (ctx, asks, has, view))
