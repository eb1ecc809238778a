-- ===== src/Orders/Update.antt =====
-- internal/services/order_service_update.go.
pub mod Writes
pub mod Frame
pub mod Overreach
pub mod Guarded
use request_system.Common.{
  ℕ, String, Bool, true, false, ◌&&◌, ◌||◌, not, Option, none, some, List, [], ◌∷◌, if◌then◌else◌,
  ◌==◌, str_eq, is_some,
}
use request_system.Entities.{Order, User, Status, Time, in_local}
use request_system.Errors.{
  Error, Result, ok, err, err_forbidden, err_no_changes, is_no_changes, new_bad_request_error,
}
use request_system.Authz.{Context, can_do}
use request_system.Authz.Permissions.{orders_update}
use request_system.Orders.Metrics.{
  calculate_metrics, detect_persisted_metric_changes, dashboard_summary_affected,
}
use request_system.Orders.Patch.{Fields, smart_update}
use request_system.Orders.Store.{
  Store, World, M, pure, fail, lift, continue, ◌>>=◌, ◌>>◌, or_fail, guard, modify, new_uuid,
  time_now, find_by_id, update, run_in_transaction, invalidate_dashboard_cache,
}
use request_system.Orders.History.{Directory, File, detect_and_log_changes, attach_file_to_order}
use request_system.Orders.Requests.{RequestContext, UpdateOrderDto, RuleEngine, OrderResponse}
use request_system.Orders.Validation.{
  validate_update_field_permissions, validate_update_comment_requirement,
  apply_update_executor_routing,
}
use request_system.Orders.Access.{build_authz_context_with_target, find_order_by_id}

abbrev has_code : String → Option Status → Bool
has_code code none = false
has_code code (some s) = elim s.code [ none ↦ false | some c ↦ str_eq c code ]

abbrev pub no_fields : Fields → Bool
no_fields [] = true
no_fields (f ∷ rest) = false

module _ (w : World) (dir : Directory) (engine : RuleEngine) (rc : RequestContext) where
  attach_if_given : Option File → User → ℕ → ℕ → Order → M (Unit {0})
  attach_if_given none actor order_id tx_id o = pure tt
  attach_if_given (some file) actor order_id tx_id o = do
    attach_file_to_order w dir order_id actor.id file tx_id o
    pure tt

  -- What is refused before the transaction: the stored order and who acts.
  unfoldable pub admit_update : ℕ → UpdateOrderDto → Option File → Fields → M (Order × Context)
  admit_update order_id d file explicit_fields = do
    current ← find_by_id w order_id
    guard (not (has_code "CLOSED" (dir.find_status current.status_id)))
        (new_bad_request_error "Заявка закрыта. Редактирование запрещено.")
    auth ← build_authz_context_with_target w dir rc current
    guard (can_do orders_update auth) err_forbidden
    lift (validate_update_field_permissions auth explicit_fields file)
    lift (validate_update_comment_requirement dir current d.comment)
    guard (not (no_fields explicit_fields && not (is_some file)))
        (new_bad_request_error "Нет данных для обновления.")
    pure (current, auth)

  -- `SmartUpdate` on a copy of the stored order, with the time of the update.
  unfoldable pub patch_order : Fields → Order → Time → Order × Bool
  patch_order explicit_fields current now =
      let (patched, changed) = smart_update dir.parse_time explicit_fields current in
      (record patched { updated_at = now }, changed)

  -- The end of the function in the transaction: the write, or `ErrNoChanges`. What comes back is
  -- `invalidateSummary` and `invalidateActivity`.
  unfoldable pub write_update : Order → Order → Bool → Bool → Option File → M (Bool × Bool)
  write_update current updated fields_changed history_changed file = do
    guard (fields_changed || is_some file || history_changed) err_no_changes
    update w updated
    pure (dashboard_summary_affected current updated, history_changed || is_some file)

  -- The function that runs in the transaction.
  unfoldable pub update_in_tx :
      ℕ → Order → Context → UpdateOrderDto → Option File → Fields → M (Bool × Bool)
  unfolding patch_order write_update attach_if_given
  update_in_tx order_id current auth d file explicit_fields = do
    tx_id ← new_uuid w
    now ← (do t ← time_now w; pure (in_local t))
    (routed, routing_changed) ← lift (
        apply_update_executor_routing engine auth current
          (patch_order explicit_fields current now).0 d explicit_fields)
    let updated = calculate_metrics dir.find_status routed current d.comment auth.actor.id now
    history_changed ← detect_and_log_changes w dir current updated d.comment auth.actor tx_id now
    attach_if_given file auth.actor order_id tx_id updated
    write_update current updated
        ((patch_order explicit_fields current now).1
          || routing_changed
          || detect_persisted_metric_changes current updated)
        history_changed file

  -- What follows the transaction.
  unfoldable pub finish_update : ℕ → Result (Bool × Bool) → M OrderResponse
  finish_update order_id (ok (summary, activity)) s =
      find_order_by_id w dir rc order_id (invalidate_dashboard_cache w summary activity s)
  finish_update order_id (err e) s =
      if is_no_changes e then find_order_by_id w dir rc order_id s else (err e, s)

  unfoldable pub update_order : ℕ → UpdateOrderDto → Option File → Fields → M OrderResponse
  unfolding admit_update update_in_tx finish_update
  update_order order_id d file explicit_fields = do
    (current, auth) ← admit_update order_id d file explicit_fields
    λ s.
        let (r, s') =
          run_in_transaction w (update_in_tx order_id current auth d file explicit_fields) s in
        finish_update order_id r s'
