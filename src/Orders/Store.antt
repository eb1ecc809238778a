-- ===== src/Orders/Store.antt =====
-- What the order service works on, and the calls that change it: the tables of
-- internal/repositories/order-repository.go, order_history-repository.go and transaction.go, the
-- event bus, the files and the versions of the dashboard's cache.
pub mod Leaves
pub mod Transactions
use request_system.Common.{
  ◌≡◌, ℕ, zero, suc, ◌+◌, String, Bool, true, false, ◌&&◌, ◌||◌, not, Option, none, some, List, [],
  ◌∷◌, ◌++◌, if◌then◌else◌, ◌==◌, is_some, find, any, map,
}
use request_system.Entities.{Order, User, Status, Attachment, HistoryItem, Time}
use request_system.Errors.{
  Error, http, driver, panic, Result, ok, err, err_not_found, wrap_db_error,
}

-- The tables that a transaction covers.
pub record Db : Type 0 where
  pub orders : List Order
  pub history : List HistoryItem
  pub attachments : List Attachment

pub record Event : Type 0 where
  pub history_item : HistoryItem
  pub order : Order
  pub actor : User

-- A sequence, the bus, the files and the cache are not undone by a rollback. `reads` counts the
-- readings of the clock, `next_uuid` the calls of `uuid.New`, and `tx_time` is what NOW() gives in
-- the running transaction.
pub record Store : Type 0 where
  pub db : Db
  pub next_order_id : ℕ
  pub next_attachment_id : ℕ
  pub published : List Event
  pub files : List String
  pub summary_version : ℕ
  pub activity_version : ℕ
  pub reads : ℕ
  pub next_uuid : ℕ
  pub tx_time : Time

-- A call that leaves the process, with what it sends.
pub data Call : Type 0 where
  begin_tx : Call
  commit_tx : Call
  find_order : ℕ → Call
  create_order : Order → Call
  update_order : Order → Call
  delete_order : ℕ → Call
  insert_history : HistoryItem → Call
  insert_attachment : Attachment → Call
  check_participant : ℕ → ℕ → Call
  list_attachments : ℕ → Call
  list_attachments_of : Call
  count_orders : Call
  list_orders : Call
  open_file : String → Call
  save_file : String → Call
  find_uploader : ℕ → Call
  incr_summary : Call
  incr_activity : Call

-- A method returns its result beside the new store, also when it fails.
abbrev pub M : Type 0 → Type 0
M A = Store → Result A × Store

unfoldable pub pure : {A : Type 0} → A → M A
pure a s = (ok a, s)

unfoldable pub fail : {A : Type 0} → Error → M A
fail e s = (err e, s)

unfoldable pub lift : {A : Type 0} → Result A → M A
lift r s = (r, s)

abbrev pub continue : {A B : Type 0} → Result A → (A → M B) → M B
continue (ok a) f s = f a s
continue (err e) f s = (err e, s)

unfoldable pub modify : (Store → Store) → M (Unit {0})
modify f s = (ok tt, f s)

unfoldable pub guard : Bool → Error → M (Unit {0})
guard true e s = (ok tt, s)
guard false e s = (err e, s)

unfoldable pub or_fail : {A : Type 0} → Option A → Error → M A
or_fail (some a) e s = (ok a, s)
or_fail none e s = (err e, s)

infixl 5 ◌>>=◌ ◌>>◌
-- Opening this opens the small actions above too.
unfoldable pub ◌>>=◌ : {A B : Type 0} → M A → (A → M B) → M B
unfolding pure fail lift modify guard or_fail
◌>>=◌ m f s = let (r, s') = m s in continue r f s'

abbrev pub ◌>>◌ : {A B : Type 0} → M A → M B → M B
m >> k = m >>= λ _. k

-- What the services meet outside: faults of the database, the disk and the cache, the clock, and what
-- the database makes of a transaction that was begun over the first tables and is at the second when
-- it is rolled back or its commit fails. PostgreSQL documents that the first are there again.
pub record World : Type 0 where
  pub fault : Call → Option Error
  pub clock : ℕ → Time
  pub has_cache : Bool
  pub rolled_back : Db → Db → Db
  pub rolls_back : (before now : Db) → rolled_back before now ≡ before

abbrev pub over_orders : (List Order → List Order) → Store → Store
over_orders f s = record s { db = record (s.db) { orders = f s.db.orders } }

abbrev pub is_live : ℕ → Order → Bool
is_live id o = o.id == id && not (is_some o.deleted_at)

-- UPDATE orders SET … WHERE id = $1 AND deleted_at IS NULL
abbrev pub update_live : ℕ → (Order → Order) → List Order → List Order
update_live id f = map λ o. if is_live id o then f o else o

module _ (w : World) where
  -- The call fails, or does what it does.
  unfoldable pub attempt : Call → M (Unit {0})
  attempt c s = elim (w.fault c) [ none ↦ (ok tt, s) | some e ↦ (err e, s) ]

  unfoldable pub time_now : M Time
  time_now s = (ok (w.clock s.reads), record s { reads = suc (s.reads) })

  unfoldable pub new_uuid : M ℕ
  new_uuid s = (ok s.next_uuid, record s { next_uuid = suc (s.next_uuid) })

  -- `FindByID` of the orders.
  unfoldable pub find_by_id : ℕ → M Order
  find_by_id id = do
    attempt (find_order id)
    λ s. (elim (find (is_live id) s.db.orders) [ none ↦ err err_not_found | some o ↦ ok o ], s)

  -- `Create`: the columns of the INSERT, the rest at its default.
  abbrev pub inserted : Order → ℕ → Time → Order
  inserted o id now = record o {
    id = id;
    created_at = now;
    updated_at = now;
    deleted_at = none;
    completed_at = none;
    first_response_time_seconds = none;
    resolution_time_seconds = none;
    is_first_contact_resolution = none;
  }

  unfoldable pub create : Order → M ℕ
  create o = do
    attempt (create_order o)
    λ s. (
      ok s.next_order_id,
      record s {
        db = record (s.db) { orders = s.db.orders ++ inserted o s.next_order_id s.tx_time ∷ [] };
        next_order_id = suc (s.next_order_id);
      },
    )

  -- The columns that `Update` sets; the others keep what the row has.
  abbrev pub set_columns : Order → Time → Order → Order
  set_columns o now row = record o {
    id = row.id;
    creator_id = row.creator_id;
    created_at = row.created_at;
    updated_at = now;
    deleted_at = row.deleted_at;
    creator_name = row.creator_name;
    executor_name = row.executor_name;
  }

  unfoldable pub update : Order → M (Unit {0})
  update o = do
    attempt (update_order o)
    modify λ s. over_orders (update_live o.id (set_columns o s.tx_time)) s

  -- `DeleteOrder` of the repository, outside a transaction: NOW() reads the clock.
  unfoldable pub delete : ℕ → M (Unit {0})
  delete id = do
    attempt (delete_order id)
    now ← time_now
    λ s.
        if any (is_live id) s.db.orders
        then (ok tt, over_orders (update_live id (λ row. record row { deleted_at = some now })) s)
        else (err err_not_found, s)

  -- `CreateInTx` of the history, and then the event.
  unfoldable pub add_history_and_publish : HistoryItem → Order → User → M (Unit {0})
  add_history_and_publish item o actor = do
    attempt (insert_history item)
    modify λ s. record s {
      db = record (s.db) { history = s.db.history ++ item ∷ [] };
      published = s.published ++ record { history_item = item; order = o; actor = actor } ∷ [];
    }

  -- `IsUserParticipant`, its error read as no by the caller.
  unfoldable pub is_user_participant : ℕ → ℕ → Store → Bool
  is_user_participant order_id user_id s =
      not (is_some (w.fault (check_participant order_id user_id)))
      && any (λ (h : HistoryItem). h.order_id == order_id && h.user_id == user_id) s.db.history

  -- The end of a transaction that was begun over the tables `before`: Commit after a success,
  -- Rollback after an error.
  abbrev pub close_tx : {A : Type 0} → Db → Result A → M A
  close_tx before (ok a) s = elim (w.fault commit_tx) [
    | none ↦ (ok a, s)
    | some e ↦ (err e, record s { db = w.rolled_back before s.db })
  ]
  close_tx before (err e) s = (err (wrap_db_error e), record s { db = w.rolled_back before s.db })

  -- `RunInTransaction`: a panic rolls back too, and goes on.
  unfoldable pub run_in_transaction : {A : Type 0} → M A → M A
  run_in_transaction m = do
    attempt begin_tx
    now ← time_now
    λ s. let (r, s') = m (record s { tx_time = now }) in close_tx s.db r s'

  -- `invalidateDashboardCache`: a fault of the cache is logged, and passed over.
  unfoldable pub invalidate_dashboard_cache : Bool → Bool → Store → Store
  invalidate_dashboard_cache summary activity s =
      let bump_summary = w.has_cache && summary && not (is_some (w.fault incr_summary)) in
      let bump_activity = w.has_cache && activity && not (is_some (w.fault incr_activity)) in
      record s {
        summary_version = if bump_summary then suc (s.summary_version) else s.summary_version;
        activity_version = if bump_activity then suc (s.activity_version) else s.activity_version;
      }
