-- ===== src/Orders/Listing/Visible.antt =====
-- Which orders the list shows.
use request_system.Common.{
  ℕ, String, Bool, true, false, not, ◌&&◌, ◌||◌, Option, List, [], ◌∷◌, ◌++◌, map, ◌≡◌, refl, ◌∙◌,
  sym, ap, subst, arith, ◌↔◌, inl, inr, any, all, In, select_sound, select_complete, is_some,
  if◌then◌else◌, Bool-cases,
}
use request_system.Entities.{Order}
use request_system.Errors.{Result, ok, err_forbidden}
use request_system.Authz.{Context, can_do, has_permission}
use request_system.Authz.Permissions.{orders_view}
use request_system.Orders.Store.{Store, World, lift, guard, pure}
use request_system.Orders.Store.Leaves.{Leaves-lift, Leaves-guard}
use request_system.Orders.Access.Reading.{store_of, gives-bind}
use request_system.Orders.Access.{to_response_dto}
use request_system.Orders.History.{Directory}
use request_system.Orders.Requests.{RequestContext, OrderResponse}
use request_system.Orders.Listing.{
  Filter, Dbms, Scope, Condition, any_of, in_scope, holds, scope_conditions, narrowing, sees_all,
  no_conditions, where_clause, passes, matching_rows, get_orders_rows, map_orders_to_dtos,
  OrderList, list_reader, security, get_orders, query_orders, no_orders,
}
use request_system.Orders.Listing.Conditions.{about, scope_conditions-can_do}
use request_system.Orders.Listing.Rows.{RowsOf, get_orders_rows-found, get_orders_rows-Leaves}

all-append :
    {A : Type 0} (p : A → Bool) (xs ys : List A) → all p (xs ++ ys) ≡ (all p xs && all p ys)
all-append p [] ys = refl
all-append p (x ∷ xs) ys = ground (arith, all-append p xs ys)

-- The orders of a list of responses.
abbrev pub shown : OrderList → List Order
shown l = map (λ (r : OrderResponse). r.order) l.list

shown-map :
    (w : World) (include : Bool) (s : Store) (rows : List Order)
    → map (λ (r : OrderResponse). r.order) (map_orders_to_dtos w include s rows) ≡ rows
unfolding map_orders_to_dtos to_response_dto
shown-map w include s [] = refl
shown-map w include s (o ∷ rows) = ap (λ l. o ∷ l) (shown-map w include s rows)

nobody :
    (b : Bool) (s : Store) (o : Order) (cs : List Scope)
    → (not b && no_conditions cs) ≡ true
    → (b || any (in_scope s o) cs) ≡ false
nobody false s o [] h = refl
nobody false s o (c ∷ cs) h = cc
nobody true s o cs h = cc

guard-true : (b : Bool) (s : Store) (u : Unit {0}) → (guard b err_forbidden s).0 ≡ ok u → b ≡ true
unfolding guard
guard-true true s u h = refl
guard-true false s u h = cc

listed : {a b : OrderList} → ◌≡◌ {A = Result OrderList} (ok a) (ok b) → a ≡ b
listed e = cc

scoped :
    (b : Bool) (s : Store) (o : Order) (cs : List Scope)
    → all (holds s o) (if b then [] else any_of cs ∷ []) ≡ (b || any (in_scope s o) cs)
scoped true s o cs = refl
scoped false s o cs = ground arith

unpacked :
    (d v n t : Bool)
    → (not d && (v && n) && t) ≡ true
    → (d ≡ false) × (t ≡ true) × (n ≡ true) × (v ≡ true)
unpacked d v n t h = ground arith

packed :
    (d v n t : Bool) → d ≡ false → v ≡ true → n ≡ true → t ≡ true → (not d && (v && n) && t) ≡ true
packed d v n t h i j k = ground arith

module _ (db : Dbms) (w : World) (dir : Directory) (permissions_of : ℕ → Option (List String))
    (rc : RequestContext) (f : Filter) where
  -- A live row that the filter and the flags of the request let pass, and that the engine lets the
  -- user view.
  abbrev pub Visible : Store → Context → Bool → Bool → Bool → Order → Type 0
  Visible s ctx c a i o =
      In o s.db.orders
      × (is_some o.deleted_at ≡ false)
      × (all (λ x. db.test x o) (where_clause f) ≡ true)
      × (all (holds s o) (narrowing ctx c a i) ≡ true)
      × (can_do orders_view (about s ctx o) ≡ true)

  query_orders-found :
      (sec : List Condition) (s : Store) (l : OrderList)
      → (query_orders w dir permissions_of db rc f sec s).0 ≡ ok l
      → RowsOf db w f sec s (shown l)
  unfolding query_orders
  query_orders-found sec s l h =
      let (p, done, e) =
        gives-bind (get_orders_rows db w f sec) _ s l (get_orders_rows-Leaves db w f sec) h in
      let same : shown l ≡ p.0 =
        ap shown (sym (listed e)) ∙ shown-map w f.include_attachments s p.0 in
      subst (RowsOf db w f sec s) (sym same) (get_orders_rows-found db w f sec s p.0 p.1 done)

  security_iff :
      (s : Store) (ctx : Context) (c a i : Bool) (o : Order)
      → has_permission ctx orders_view ≡ true
      → (In o (matching_rows db s f (security w dir permissions_of db rc ctx c a i))
          ↔ Visible s ctx c a i o)
  unfolding matching_rows
  security_iff s ctx c a i o h =
      let sec = security w dir permissions_of db rc ctx c a i in
      let tests = all (λ x. db.test x o) (where_clause f) in
      let extra = all (holds s o) (narrowing ctx c a i) in
      let scope =
        all-append (holds s o) (if sees_all ctx then [] else any_of (scope_conditions ctx) ∷ [])
          (narrowing ctx c a i) in
      let view : all (holds s o) sec ≡ (can_do orders_view (about s ctx o) && extra) =
        scope
        ∙ ap (λ b. b && extra)
            (scoped (sees_all ctx) s o (scope_conditions ctx)
              ∙ scope_conditions-can_do s ctx o h) in
      let key : passes db s f sec o
          ≡ (not (is_some o.deleted_at) && (can_do orders_view (about s ctx o) && extra) && tests) =
        ap (λ b. not (is_some o.deleted_at) && b && tests) view in
      (
        λ m.
            let (p, k) = select_sound (passes db s f sec) s.db.orders o m in
            let (live, passed, kept, may) = unpacked _ _ _ _ (sym key ∙ p) in
            (k, live, passed, kept, may),
        λ v.
            select_complete (passes db s f sec) s.db.orders o (key ∙ packed _ _ _ _ v.1 v.4 v.3 v.2)
              v.0,
      )

  -- What the permission check leaves to know.
  viewer : (ctx : Context) → can_do orders_view ctx ≡ true → has_permission ctx orders_view ≡ true
  unfolding can_do
  viewer ctx h = elim (Bool-cases (has_permission ctx orders_view)) [
    | inl e ↦ e
    | inr e ↦ cc (let g : false ≡ true = rw (e, can_do) at h in g)
  ]

  -- What the list holds, whichever way it was made.
  abbrev Answers : Store → Context → Bool → Bool → Bool → List Order → Type 0
  Answers s ctx c a i rows =
      ((o : Order) → In o rows → Visible s ctx c a i o)
      × (f.with_pagination ≡ false → (o : Order) → Visible s ctx c a i o → In o rows)

  answered :
      (empty : Bool) (s : Store) (ctx : Context) (c a i : Bool) (l : OrderList)
      → (not (sees_all ctx) && no_conditions (scope_conditions ctx)) ≡ empty
      → has_permission ctx orders_view ≡ true
      → ((if empty
            then pure no_orders
            else query_orders w dir permissions_of db rc f
                (security w dir permissions_of db rc ctx c a i))
          s).0
        ≡ ok l
      → Answers s ctx c a i (shown l)
  unfolding pure
  answered true s ctx c a i l none_there h e =
      let same : [] ≡ shown l = ap shown (listed e) in
      (
        λ o m. absurd (subst (In o) (sym same) m),
        λ _ o v. cc (
            sym (nobody (sees_all ctx) s o (scope_conditions ctx) none_there)
            ∙ scope_conditions-can_do s ctx o h
            ∙ v.4),
      )
  answered false s ctx c a i l some_there h e =
      let sec = security w dir permissions_of db rc ctx c a i in
      let (sound, complete) = query_orders-found sec s l e in
      (
        λ o m. (security_iff s ctx c a i o h).0 (sound o m),
        λ whole o v. complete whole o ((security_iff s ctx c a i o h).1 v),
      )

  -- Every order that the list shows is a live row that passes the filter and the flags of the
  -- request and that the engine lets the user who asks view; and without paging the list shows each
  -- such row.
  pub get_orders_refines :
      (s : Store) (c a i : Bool) (l : OrderList)
      → (get_orders w dir permissions_of db rc f c a i s).0 ≡ ok l
      → (ctx : Context) × (list_reader w dir permissions_of db rc ≡ ok ctx)
        × ((o : Order) → In o (shown l) → Visible s ctx c a i o)
        × (f.with_pagination ≡ false → (o : Order) → Visible s ctx c a i o → In o (shown l))
  unfolding get_orders lift
  get_orders_refines s c a i l h =
      let (ctx, read, e) =
        gives-bind (lift (list_reader w dir permissions_of db rc)) _ s l (Leaves-lift store_of _)
          h in
      let (u, may, e') =
        gives-bind (guard (can_do orders_view ctx) err_forbidden) _ s l (Leaves-guard store_of _ _)
          e in
      let (sound, complete) =
        answered (not (sees_all ctx) && no_conditions (scope_conditions ctx)) s ctx c a i l refl
          (viewer ctx (guard-true (can_do orders_view ctx) s u may)) e' in
      (ctx, read, sound, complete)
