-- ===== src/Orders/Store/Transactions.antt =====
-- Transactions of internal/repositories/transaction.go: all or nothing for the tables.
use request_system.Common.{suc, none, some, ◌≡◌, refl, Option-cases, inl, inr, sym, ap, ◌∙◌}
use request_system.Errors.{Error, Result, ok, err}
use request_system.Orders.Store.{
  Db, Store, World, M, commit_tx, begin_tx, ◌>>=◌, attempt, time_now, close_tx, run_in_transaction,
}

-- The store that the function of a transaction starts from.
abbrev pub begun : World → Store → Store
begun w s = record s { reads = suc (s.reads); tx_time = w.clock s.reads }

module _ (w : World) {A : Type 0} where
  close_tx_failed :
      (before : Db) (r : Result A) (s : Store) (e : Error)
      → (close_tx w before r s).0 ≡ err e
      → (close_tx w before r s).1.db ≡ before
  close_tx_failed before (ok a) s e h = elim (Option-cases (w.fault commit_tx)) [
    | inl up ↦ cc (rw (up, close_tx) at h)
    | inr (x, down) ↦ rw (down, close_tx) (w.rolls_back before s.db)
  ]
  close_tx_failed before (err x) s e h = w.rolls_back before s.db

  -- Once begun, a transaction is its function followed by the end.
  pub run_in_transaction-begun :
      (m : M A) (s : Store)
      → w.fault begin_tx ≡ none
      → run_in_transaction w m s ≡ close_tx w s.db (m (begun w s)).0 (m (begun w s)).1
  unfolding run_in_transaction ◌>>=◌ attempt time_now
  run_in_transaction-begun m s e = rw (e, attempt) refl

  run_in_transaction-refused :
      (m : M A) (s : Store) (x : Error)
      → w.fault begin_tx ≡ some x
      → run_in_transaction w m s ≡ (err x, s)
  unfolding run_in_transaction ◌>>=◌ attempt time_now
  run_in_transaction-refused m s x e = rw (e, attempt) refl

  -- A transaction that reports an error, be it of the function or of the commit, leaves the tables
  -- as they were before it began.
  pub run_in_transaction_atomic :
      (m : M A) (s : Store) (e : Error)
      → (run_in_transaction w m s).0 ≡ err e
      → (run_in_transaction w m s).1.db ≡ s.db
  run_in_transaction_atomic m s e h = elim (Option-cases (w.fault begin_tx)) [
    | inl up ↦
        let eq = run_in_transaction-begun m s up in
        rw eq (close_tx_failed s.db (m (begun w s)).0 (m (begun w s)).1 e (rw eq at h))
    | inr (x, down) ↦ rw (run_in_transaction-refused m s x down) refl
  ]

  close_tx_succeeded :
      (before : Db) (r : Result A) (s : Store) (a : A) (t : Store)
      → close_tx w before r s ≡ (ok a, t)
      → (r ≡ ok a) × (s ≡ t)
  close_tx_succeeded before (ok b) s a t h = elim (Option-cases (w.fault commit_tx)) [
    | inl up ↦
        let g : close_tx w before (ok b) s ≡ (ok b, s) = rw (up, close_tx) refl in
        (cc (ap (λ p. p.0) (sym g ∙ h)), ap (λ p. p.1) (sym g ∙ h))
    | inr (x, down) ↦
        let g : close_tx w before (ok b) s ≡ (err x, record s { db = w.rolled_back before s.db }) =
          rw (down, close_tx) refl in
        cc (ap (λ p. p.0) (sym g ∙ h))
  ]
  close_tx_succeeded before (err x) s a t h = cc (ap (λ p. p.0) h)

  -- A transaction that succeeds was begun, and gives what its function gives.
  pub run_in_transaction_ok :
      (m : M A) (s : Store) (a : A) (t : Store)
      → run_in_transaction w m s ≡ (ok a, t)
      → m (begun w s) ≡ (ok a, t)
  run_in_transaction_ok m s a t h = elim (Option-cases (w.fault begin_tx)) [
    | inl up ↦
        let (r, e) =
          close_tx_succeeded s.db (m (begun w s)).0 (m (begun w s)).1 a t
            (sym (run_in_transaction-begun m s up) ∙ h) in
        λ i. (r i, e i)
    | inr (x, down) ↦ cc (ap (λ p. p.0) (sym (run_in_transaction-refused m s x down) ∙ h))
  ]
