-- ===== src/Orders/Update/Frame.antt =====
-- What an update leaves as it was.
use request_system.Common.{
  ℕ, Bool, Option, none, List, [], ◌∷◌, ◌≡◌, refl, ◌∙◌, sym, ap, subst, arith, ◌==◌, not, select,
  find, find_sound, Bool-cases, Option-cases, inl, inr,
}
use request_system.Entities.{Order}
use request_system.Errors.{Result, ok, err, is_no_changes}
use request_system.Authz.{Context}
use request_system.Orders.Patch.{Fields, lookup}
use request_system.Orders.Patch.Fields.{patched-id_kept}
use request_system.Orders.Store.{
  Store, World, find_by_id, is_live, update_live, set_columns, run_in_transaction,
  invalidate_dashboard_cache, continue, ◌>>=◌,
}
use request_system.Orders.Store.Leaves.{
  Leaves, Leaves-guard, Leaves-lift, Leaves-pure, Leaves-bind, Returns, Returns-bind, Returns-pure,
}
use request_system.Orders.Store.Transactions.{
  run_in_transaction_atomic, run_in_transaction_ok, begun,
}
use request_system.Orders.Access.Reading.{
  store_of, find_by_id-Leaves, build_authz_context_with_target-Leaves, find_order_by_id-Leaves,
}
use request_system.Orders.History.{Directory, File}
use request_system.Orders.Requests.{RequestContext, UpdateOrderDto, RuleEngine}
use request_system.Orders.Update.{admit_update, update_in_tx, finish_update, update_order}
use request_system.Orders.Update.Writes.{update_in_tx_writes}

-- The rows of the other orders.
abbrev pub others : ℕ → List Order → List Order
others id = select λ (o : Order). not (o.id == id)

others-update_live :
    (id : ℕ) (f : Order → Order) (xs : List Order)
    → ((o : Order) → (f o).id ≡ o.id)
    → others id (update_live id f xs) ≡ others id xs
others-update_live id f [] h = refl
others-update_live id f (x ∷ xs) h = elim (Bool-cases (is_live id x)) [
  | inl e ↦ ground (arith, others-update_live id f xs h, h x)
  | inr e ↦ ground (arith, others-update_live id f xs h)
]

find_by_id-Returns : (w : World) (id : ℕ) → Returns (λ (o : Order). o.id ≡ id) (find_by_id w id)
unfolding find_by_id
find_by_id-Returns w id = Returns-bind _ _ _ λ u s done. record {
  at = λ t a e. elim (Option-cases (find (is_live id) t.db.orders)) [
    | inl f ↦ cc
    | inr (o, f) ↦ let (live, m) = find_sound (is_live id) t.db.orders o f in ground arith
  ];
}

module _ (w : World) (dir : Directory) (engine : RuleEngine) (rc : RequestContext) where
  admit_update-Leaves :
      (order_id : ℕ) (d : UpdateOrderDto) (file : Option File) (fields : Fields)
      → Leaves store_of (admit_update w dir engine rc order_id d file fields)
  unfolding admit_update
  admit_update-Leaves order_id d file fields =
      Leaves-bind store_of _ _ (find_by_id-Leaves w order_id) λ current.
        Leaves-bind store_of _ _ (Leaves-guard store_of _ _) λ _.
          Leaves-bind store_of _ _ (build_authz_context_with_target-Leaves w dir rc current) λ auth.
            Leaves-bind store_of _ _ (Leaves-guard store_of _ _) λ _.
              Leaves-bind store_of _ _ (Leaves-lift store_of _) λ _.
                Leaves-bind store_of _ _ (Leaves-lift store_of _) λ _.
                  Leaves-bind store_of _ _ (Leaves-guard store_of _ _) λ _. Leaves-pure store_of _

  admit_update-Returns :
      (order_id : ℕ) (d : UpdateOrderDto) (file : Option File) (fields : Fields)
      → Returns
          (λ (p : Order × Context). p.0.id ≡ order_id)
          (admit_update w dir engine rc order_id d file fields)
  unfolding admit_update
  admit_update-Returns order_id d file fields = Returns-bind _ _ _ λ current s found.
      let same = (find_by_id-Returns w order_id).at s current found in
      Returns-bind _ _ _ λ _ _ _. Returns-bind _ _ _ λ auth _ _. Returns-bind _ _ _ λ _ _ _.
        Returns-bind _ _ _ λ _ _ _.
          Returns-bind _ _ _
            λ _ _ _. Returns-bind _ _ _ λ _ _ _. Returns-pure _ (current, auth) same

  module _ (order_id : ℕ) (d : UpdateOrderDto) (file : Option File) (fields : Fields)
      (no_id : lookup "id" fields ≡ none) where
    abbrev others_of : Store → List Order
    others_of s = others order_id s.db.orders

    transaction-others :
        (current : Order) (auth : Context) (s : Store) (r : Result (Bool × Bool)) (t : Store)
        → current.id ≡ order_id
        → run_in_transaction w (update_in_tx w dir engine rc order_id current auth d file fields) s
          ≡ (r, t)
        → others_of t ≡ others_of s
    transaction-others current auth s (ok r) t same e =
        let m = update_in_tx w dir engine rc order_id current auth d file fields in
        let (updated, f, wrote) =
          update_in_tx_writes w dir engine rc order_id current auth d file fields (begun w s) r t
            (run_in_transaction_ok w m s r t e) in
        let at : updated.id ≡ order_id =
          f.id ∙ patched-id_kept dir.parse_time fields current no_id ∙ same in
        ap (others order_id) (
          subst
            (λ n.
              t.db.orders ≡ update_live n (set_columns w updated (begun w s).tx_time) s.db.orders)
            at wrote)
        ∙ others-update_live order_id (set_columns w updated (begun w s).tx_time) s.db.orders
            (λ o. refl)
    transaction-others current auth s (err x) t same e =
        let m = update_in_tx w dir engine rc order_id current auth d file fields in
        ap (λ db. others order_id db.orders)
          (ap (λ p. p.1.db) (sym e) ∙ run_in_transaction_atomic w m s x (ap (λ p. p.0) e))

    finish_update-others :
        (r : Result (Bool × Bool)) (s : Store)
        → others_of (finish_update w dir engine rc order_id r s).1 ≡ others_of s
    unfolding finish_update invalidate_dashboard_cache
    finish_update-others (ok (summary, activity)) s = ap others_of (
        (find_order_by_id-Leaves w dir rc order_id).at
          (invalidate_dashboard_cache w summary activity s))
    finish_update-others (err e) s = elim (Bool-cases (is_no_changes e)) [
      | inl same ↦
          rw (same, finish_update) (ap others_of ((find_order_by_id-Leaves w dir rc order_id).at s))
      | inr other ↦ rw (other, finish_update) refl
    ]

    after-others :
        (current : Order) (auth : Context) (s : Store)
        → current.id ≡ order_id
        → (let (r, t) =
              run_in_transaction w
                (update_in_tx w dir engine rc order_id current auth d file fields)
                s in
            others_of (finish_update w dir engine rc order_id r t).1)
          ≡ others_of s
    after-others current auth s same =
        let (r, t) =
          run_in_transaction w (update_in_tx w dir engine rc order_id current auth d file fields)
            s in
        finish_update-others r t ∙ transaction-others current auth s r t same refl

    admitted-others :
        (a : Result (Order × Context)) (s : Store)
        → ((p : Order × Context) → a ≡ ok p → p.0.id ≡ order_id)
        → others_of
            (continue a
              (λ (current, auth). λ s.
                let (r, t) =
                  run_in_transaction w
                    (update_in_tx w dir engine rc order_id current auth d file fields)
                    s in
                finish_update w dir engine rc order_id r t)
              s).1
          ≡ others_of s
    admitted-others (ok (current, auth)) s h = after-others current auth s (h (current, auth) refl)
    admitted-others (err e) s h = refl

    -- An update, whether it succeeds or fails, leaves the rows of every other order as they were,
    -- provided that the request has no key "id".
    pub update_order_frame :
        (s : Store)
        → others order_id (update_order w dir engine rc order_id d file fields s).1.db.orders
          ≡ others order_id s.db.orders
    unfolding update_order ◌>>=◌
    update_order_frame s =
        let a = admit_update w dir engine rc order_id d file fields s in
        admitted-others a.0 a.1 ((admit_update-Returns order_id d file fields).at s)
        ∙ ap others_of ((admit_update-Leaves order_id d file fields).at s)
