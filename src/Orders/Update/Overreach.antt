-- ===== src/Orders/Update/Overreach.antt =====
-- The key "id" of a request: it is the json tag of the entity's own id, and no permission guards it.
use request_system.Common.{ℕ, Bool, Option, some, ◌≡◌, ◌∙◌, subst}
use request_system.Entities.{Order}
use request_system.Errors.{ok}
use request_system.Authz.{Context}
use request_system.Orders.Patch.{Fields, lookup, number}
use request_system.Orders.Patch.Fields.{patched-id_sent}
use request_system.Orders.Store.{Store, World, update_live, set_columns}
use request_system.Orders.History.{Directory, File}
use request_system.Orders.Requests.{RequestContext, UpdateOrderDto, RuleEngine}
use request_system.Orders.Update.{update_in_tx}
use request_system.Orders.Update.Writes.{update_in_tx_writes, Follows, target_of}

-- A request for one order that sends the key "id" with a number n, once its transaction succeeds,
-- has rewritten the live rows with the id n, whatever order was asked for and checked: they get
-- the name, status and department of the patched copy of that other order.
pub update_in_tx_overreach :
    (w : World) (dir : Directory) (engine : RuleEngine) (rc : RequestContext) (order_id : ℕ)
    (current : Order) (auth : Context) (d : UpdateOrderDto) (file : Option File) (fields : Fields)
    (n : ℕ)
    → lookup "id" fields ≡ some (number n)
    → (s : Store) (r : Bool × Bool) (t : Store)
    → update_in_tx w dir engine rc order_id current auth d file fields s ≡ (ok r, t)
    → (updated : Order) × Follows (target_of dir fields current) updated
      × (t.db.orders ≡ update_live n (set_columns w updated s.tx_time) s.db.orders)
update_in_tx_overreach w dir engine rc order_id current auth d file fields n e s r t h =
    let (updated, f, wrote) =
      update_in_tx_writes w dir engine rc order_id current auth d file fields s r t h in
    (
      updated,
      f,
      subst (λ k. t.db.orders ≡ update_live k (set_columns w updated s.tx_time) s.db.orders)
          (f.id ∙ patched-id_sent dir.parse_time fields current n e) wrote,
    )
