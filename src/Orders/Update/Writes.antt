-- ===== src/Orders/Update/Writes.antt =====
-- What the function in the update's transaction writes to the table of orders.
use request_system.Common.{
  ℕ, String, Bool, true, false, Option, none, some, List, ◌≡◌, refl, ◌∙◌, sym, ap, arith,
  if◌then◌else◌, ◌||◌,
}
use request_system.Entities.{Order, User, Time, in_local}
use request_system.Errors.{Result, http, ok, err}
use request_system.Authz.{Context, can_do}
use request_system.Orders.Metrics.{calculate_metrics, detect_persisted_metric_changes}
use request_system.Orders.Patch.{Fields, patched, smart_update, lookup}
use request_system.Orders.Store.{
  Store, World, Call, modify, ◌>>=◌, ◌>>◌, set_columns, update_live, update, new_uuid, lift,
}
use request_system.Orders.Store.Leaves.{
  Leaves, Leaves-attempt, Leaves-guard, Leaves-pure, Leaves-bind, Ends, Ends-bind, Ends-then,
}
use request_system.Orders.History.{Directory, File, structure_differs, detect_and_log_changes}
use request_system.Orders.History.Preserved.{
  orders_and_time, detect_and_log_changes-Leaves, attach_file_to_order-Leaves, now_Leaves,
}
use request_system.Orders.Requests.{RequestContext, UpdateOrderDto, RuleEngine, RoutingResult}
use request_system.Orders.Validation
use request_system.Orders.Validation.{
  apply_update_executor_routing, selects_executor, require, routing_context, wrap_failure,
}
use request_system.Orders.Update.{patch_order, write_update, update_in_tx, attach_if_given}

-- The entity that a request makes of the stored order, before the executor and the metrics.
abbrev pub target_of : Directory → Fields → Order → Order
target_of dir explicit_fields current = patched dir.parse_time explicit_fields current

-- The fields that are the request's alone.
pub record Follows (target updated : Order) : Type 0 where
  pub id : updated.id ≡ target.id
  pub name : updated.name ≡ target.name
  pub status_id : updated.status_id ≡ target.status_id
  pub department_id : updated.department_id ≡ target.department_id

calculate_metrics-Follows :
    (find_status : ℕ → Option _) (new old : Order) (comment_text : Option String) (actor_id : ℕ)
    (now : Time)
    → Follows new (calculate_metrics find_status new old comment_text actor_id now)
unfolding calculate_metrics
calculate_metrics-Follows find_status new old comment_text actor_id now = ground arith

abbrev assign_to : Order → Result RoutingResult → Result (Order × Bool)
assign_to updated r =
    Validation.◌>>=◌ {B = Order × Bool} r
      (λ x. ok (record updated { executor_id = some x.executor.id }, true))

module _ (updated routed : Order) (changed : Bool) where
  kept-Follows :
      (b : Bool)
      → ◌≡◌ {A = Result (Order × Bool)} (ok (updated, b)) (ok (routed, changed))
      → Follows updated routed
  kept-Follows b h = ground arith

  assigned-Follows :
      (r : Result RoutingResult)
      → assign_to updated r ≡ ok (routed, changed)
      → Follows updated routed
  assigned-Follows (ok x) h = ground arith
  assigned-Follows (err e) h = cc

  required-Follows :
      (q : Result (Unit {0})) (r : Result RoutingResult)
      → Validation.◌>>=◌ q (λ _. assign_to updated r) ≡ ok (routed, changed)
      → Follows updated routed
  required-Follows (ok u) r h = assigned-Follows r h
  required-Follows (err e) r h = cc

  routed-Follows :
      (selected moved : Bool) (q : Result (Unit {0})) (r r' : Result RoutingResult)
      → (if selected
          then Validation.◌>>=◌ q (λ _. assign_to updated r)
          else if moved
          then assign_to updated r'
          else ok (updated, false))
        ≡ ok (routed, changed)
      → Follows updated routed
  routed-Follows true moved q r r' h = required-Follows q r h
  routed-Follows false true q r r' h = assigned-Follows r' h
  routed-Follows false false q r r' h = kept-Follows false h

apply_update_executor_routing-Follows :
    (engine : RuleEngine) (auth : Context) (current updated : Order) (d : UpdateOrderDto)
    (fields : Fields) (routed : Order) (changed : Bool)
    → apply_update_executor_routing engine auth current updated d fields ≡ ok (routed, changed)
    → Follows updated routed
unfolding apply_update_executor_routing
apply_update_executor_routing-Follows engine auth current updated d fields routed changed h =
    routed-Follows updated routed changed (selects_executor (lookup "executor_id" fields))
      (structure_differs current updated)
      (require (can_do "order:update:executor_id" auth)
        (http 403 "У вас нет прав назначать исполнителя вручную."))
      (engine.resolve_executor (routing_context updated) d.executor_id)
      (wrap_failure updated (engine.resolve_executor (routing_context updated) none)) h

Follows-trans : {a b c : Order} → Follows a b → Follows b c → Follows a c
Follows-trans f g = record {
  id = g.id ∙ f.id;
  name = g.name ∙ f.name;
  status_id = g.status_id ∙ f.status_id;
  department_id = g.department_id ∙ f.department_id;
}

-- The rows that the patched entity's id names are rewritten, and no other.
abbrev Written : World → Order → List Order × Time → Store → Type 0
Written w target (rows, time) t =
    (updated : Order) × Follows target updated
    × (t.db.orders ≡ update_live updated.id (set_columns w updated time) rows)

module _ (w : World) where
  update-Ends : (o : Order) → Ends orders_and_time (Written w o) (update w o)
  unfolding update modify
  update-Ends o =
      Ends-bind orders_and_time (Written w o) _ _
        (Leaves-attempt orders_and_time w (Call.update_order o))
        λ _ _ _. record {
          at = λ s u t e. (
            o,
            record { id = refl; name = refl; status_id = refl; department_id = refl },
            sym (ap (λ p. p.1.db.orders) e),
          );
        }

  Written-Follows :
      {a b : Order} (p : List Order × Time) (t : Store)
      → Follows a b
      → Written w b p t
      → Written w a p t
  Written-Follows p t f (o, g, e) = (o, Follows-trans f g, e)

  module _ (dir : Directory) (engine : RuleEngine) (rc : RequestContext) where
    write_update-Ends :
        (current updated : Order) (fields_changed history_changed : Bool) (file : Option File)
        → Ends orders_and_time
            (Written w updated)
            (write_update w dir engine rc current updated fields_changed history_changed file)
    unfolding write_update
    write_update-Ends current updated fields_changed history_changed file =
        Ends-bind orders_and_time (Written w updated) _ _ (Leaves-guard orders_and_time _ _)
          λ _ _ _. Ends-then orders_and_time (Written w updated) _ _ (update-Ends updated)

    attach_if_given-Leaves :
        (file : Option File) (actor : User) (order_id tx_id : ℕ) (o : Order)
        → Leaves orders_and_time (attach_if_given w dir engine rc file actor order_id tx_id o)
    unfolding attach_if_given
    attach_if_given-Leaves none actor order_id tx_id o = Leaves-pure orders_and_time tt
    attach_if_given-Leaves (some file) actor order_id tx_id o =
        Leaves-bind orders_and_time _ _
          (attach_file_to_order-Leaves w dir order_id actor.id file tx_id o)
          λ _. Leaves-pure orders_and_time tt

    -- The steps after the executor is settled.
    after_routing-Ends :
        (order_id tx_id : ℕ) (current routed : Order) (auth : Context) (d : UpdateOrderDto)
        (file : Option File) (now : Time) (changed : Order → Bool)
        → let updated =
            calculate_metrics dir.find_status routed current d.comment auth.actor.id now in
          Ends orders_and_time (Written w routed) (
            detect_and_log_changes w dir current updated d.comment auth.actor tx_id now
            >>= λ history_changed.
                attach_if_given w dir engine rc file auth.actor order_id tx_id updated
                >> write_update w dir engine rc current updated
                    (changed updated)
                    history_changed
                    file)
    after_routing-Ends order_id tx_id current routed auth d file now changed =
        let updated =
          calculate_metrics dir.find_status routed current d.comment auth.actor.id now in
        Ends-bind orders_and_time (Written w routed) _ _
          (detect_and_log_changes-Leaves w dir current updated d.comment auth.actor tx_id now)
          λ history_changed _ _.
            Ends-bind orders_and_time (Written w routed) _ _
              (attach_if_given-Leaves file auth.actor order_id tx_id updated)
              λ _ _ _. record {
                at = λ s r t e.
                    Written-Follows (orders_and_time s) t
                      (calculate_metrics-Follows dir.find_status routed current d.comment
                        auth.actor.id now)
                      ((write_update-Ends current updated (changed updated) history_changed file).at
                        s r t e);
              }

    update_in_tx-Ends :
        (order_id : ℕ) (current : Order) (auth : Context) (d : UpdateOrderDto) (file : Option File)
        (fields : Fields)
        → Ends orders_and_time
            (Written w (target_of dir fields current))
            (update_in_tx w dir engine rc order_id current auth d file fields)
    unfolding update_in_tx patch_order smart_update new_uuid lift
    update_in_tx-Ends order_id current auth d file fields =
        let P = Written w (target_of dir fields current) in
        Ends-bind orders_and_time P _ _ (record { at = λ s. refl })
          λ tx_id _ _.
            Ends-bind orders_and_time P _ _
              (Leaves-bind orders_and_time _ _ (now_Leaves w)
                λ t. Leaves-pure orders_and_time (in_local t))
              λ now _ _.
                Ends-bind orders_and_time P _ _ (record { at = λ s. refl })
                  λ (routed, changed) s done.
                    let patch = patch_order w dir engine rc fields current now in
                    record {
                      at = λ s r t e.
                          Written-Follows (orders_and_time s) t
                            (Follows-trans
                              (record {
                                id = refl;
                                name = refl;
                                status_id = refl;
                                department_id = refl;
                              })
                              (apply_update_executor_routing-Follows engine auth current patch.0 d
                                fields routed changed done))
                            ((after_routing-Ends order_id tx_id current routed auth d file now
                                (λ updated.
                                  patch.1
                                  || changed
                                  || detect_persisted_metric_changes current updated)).at
                              s r t e);
                    }

    -- When the function of an update's transaction succeeds, it has rewritten the live rows whose
    -- id is that of the patched entity, and no other row: they have the patched name, status and
    -- department, and keep their creator and creation time.
    pub update_in_tx_writes :
        (order_id : ℕ) (current : Order) (auth : Context) (d : UpdateOrderDto) (file : Option File)
        (fields : Fields) (s : Store) (r : Bool × Bool) (t : Store)
        → update_in_tx w dir engine rc order_id current auth d file fields s ≡ (ok r, t)
        → (updated : Order) × Follows (target_of dir fields current) updated
          × (t.db.orders ≡ update_live updated.id (set_columns w updated s.tx_time) s.db.orders)
    update_in_tx_writes order_id current auth d file fields s r t =
        (update_in_tx-Ends order_id current auth d file fields).at s r t
