-- ===== src/Orders/Access/Deletion.antt =====
-- What a deletion does.
use request_system.Common.{
  ℕ, Bool, true, false, some, List, [], ◌∷◌, ◌≡◌, refl, ◌∙◌, sym, ap, arith, any, Bool-cases, inl,
  inr, if◌then◌else◌,
}
use request_system.Entities.{Order, Time}
use request_system.Errors.{Result, ok, err, err_forbidden, err_not_found}
use request_system.Authz.{can_do}
use request_system.Authz.Permissions.{orders_delete}
use request_system.Orders.Store.{
  Db, Store, World, modify, is_live, delete, update_live, time_now, over_orders,
  invalidate_dashboard_cache,
}
use request_system.Orders.Store.Leaves.{Ends, Ends-bind, Leaves-attempt, Leaves-guard, >>=-eq-ok}
use request_system.Orders.Access.Reading.{build_authz_context-Leaves}
use request_system.Orders.History.{Directory}
use request_system.Orders.Requests.{RequestContext}
use request_system.Orders.Access.{delete_order}

-- The live rows with the id are marked, and nothing else is touched.
abbrev pub Deleted : ℕ → Db → Store → Type 0
Deleted id before t =
    (now : Time) × (any (is_live id) before.orders ≡ true)
    × (t.db ≡ record before {
      orders = update_live id (λ row. record row { deleted_at = some now }) before.orders;
    })

abbrev db_of : Store → Db
db_of s = s.db

marked :
    (id : ℕ) (now : Time) (s : Store) (u : Unit {0}) (t : Store) (b : Bool)
    → any (is_live id) s.db.orders ≡ b
    → ◌≡◌ {A = Result (Unit {0}) × Store}
        (if b
          then (ok tt, over_orders (update_live id (λ row. record row { deleted_at = some now })) s)
          else (err err_not_found, s))
        (ok u, t)
    → Deleted id s.db t
marked id now s u t true found e = (now, found, ap (λ p. p.1.db) (sym e))
marked id now s u t false found e = cc (ap (λ p. p.0) e)

delete-Ends : (w : World) (id : ℕ) → Ends db_of (Deleted id) (delete w id)
unfolding delete time_now
delete-Ends w id = Ends-bind db_of (Deleted id) _ _ (Leaves-attempt db_of w _) λ _ _ _.
    Ends-bind db_of (Deleted id) _ _ (record { at = λ s. refl })
      λ now _ _. record {
        at = λ s u t e. marked id now s u t (any (is_live id) s.db.orders) refl e;
      }

no_live :
    (id : ℕ) (now : Time) (xs : List Order)
    → any (is_live id) (update_live id (λ row. record row { deleted_at = some now }) xs) ≡ false
no_live id now [] = refl
no_live id now (x ∷ xs) = elim (Bool-cases (is_live id x)) [
  | inl e ↦ ground (arith, no_live id now xs)
  | inr e ↦ ground (arith, no_live id now xs)
]

-- A deletion that succeeds has marked the live rows with the id, of which there was one, and
-- touched nothing else of the tables; no live row with the id is left.
pub delete_order_deletes :
    (w : World) (dir : Directory) (rc : RequestContext) (id : ℕ) (s : Store) (u : Unit {0})
    (t : Store)
    → delete_order w dir rc id s ≡ (ok u, t)
    → Deleted id s.db t × (any (is_live id) t.db.orders ≡ false)
unfolding delete_order modify invalidate_dashboard_cache
delete_order_deletes w dir rc id s u t e =
    let (now, found, eq) =
      (Ends-bind db_of (Deleted id) _ _
          (record { at = λ s. ap db_of ((build_authz_context-Leaves w dir rc id).at s) })
          λ auth _ _.
            Ends-bind db_of (Deleted id) _ _
              (Leaves-guard db_of (can_do orders_delete auth) err_forbidden)
              λ _ _ _. record {
                at = λ s u t e.
                    let (v, done, rest) = >>=-eq-ok (delete w id) _ s u t e in
                    let (now, found, eq) =
                      (delete-Ends w id).at s v (delete w id s).1
                        (λ i. (done i, (delete w id s).1)) in
                    (now, found, sym (ap (λ p. p.1.db) rest) ∙ eq);
              }).at
        s u t e in
    ((now, found, eq), ap (λ (db : Db). any (is_live id) db.orders) eq ∙ no_live id now s.db.orders)
