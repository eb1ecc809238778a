-- ===== src/Examples/Orders.antt =====
-- The theorems on the order service, applied.
use request_system.Common.{
  ℕ, Bool, true, false, none, some, List, [], ◌∷◌, ◌++◌, ◌≡◌, ◌≢◌, ◌⊎◌, refl, sym, ◌∙◌, trim_space,
}
use request_system.Entities.{Order, Status, HistoryItem, EventType}
use request_system.Errors.{Result, ok}
use request_system.Orders.Patch.{Fields, number, text, has_changes, smart_update}
use request_system.Orders.Store.{
  ◌>>=◌, new_uuid, time_now, add_history_and_publish, attempt, create, update, Store, update_live,
  set_columns, inserted, run_in_transaction,
}
use request_system.Orders.Requests.{RoutingResult, RequestContext, OrderResponse}
use request_system.Orders.Metrics.{
  is_order_resolved_status, calculate_metrics, elapsed_seconds, has_comment,
  dashboard_summary_affected, detect_persisted_metric_changes,
}
use request_system.Orders.Metrics.Resolution.{
  IsSettled, KeepsMetrics, is_resolved, calculate_metrics-IsSettled,
}
use request_system.Orders.Metrics.Response.{first_response_earned}
use request_system.Orders.History.{detect_and_log_changes, log_draft, log_history_event}
use request_system.Orders.History.Completeness.{
  count_events, bit, reported, any_item, detect_and_log_changes_complete,
}
use request_system.Orders.Update.{update_in_tx, update_order}
use request_system.Orders.Update.Writes.{Follows, target_of, update_in_tx_writes}
use request_system.Orders.Update.Frame.{others, update_order_frame}
use request_system.Orders.Update.Overreach.{update_in_tx_overreach}
use request_system.Orders.Validation.{apply_update_executor_routing}
use request_system.Orders.Create.{create_in_tx, new_order, create_order}
use request_system.Orders.Create.Effects.{create_in_tx_creates}
use request_system.Authz.{Context, can_do, can_access_order, get_action}
use request_system.Orders.Access.{
  build_authz_context, find_order_by_id, target_order, to_response_dto,
}
use request_system.Orders.Validation.{
  validate_create_field_permissions, check_fields, validate_order_rules,
}
use request_system.Orders.Store.{find_by_id, invalidate_dashboard_cache}
use request_system.Orders.Create.Outcome.{Admitted, create_order_creates}
use request_system.Examples.{
  alice, printer, phone, store, world, directory, engine, request, context, completing,
  plain_update, new_desk, at_second, find_status, route,
}

abbrev completion : Result (Bool × Bool) × Store
completion =
    update_in_tx world directory engine request 1 printer context plain_update none completing store

completes :
    update_in_tx world directory engine request 1 printer context plain_update none completing store
    ≡ (ok (true, true), completion.1)
unfolding update_in_tx ◌>>=◌ new_uuid time_now apply_update_executor_routing smart_update
    detect_and_log_changes trim_space log_draft add_history_and_publish attempt calculate_metrics
    is_order_resolved_status update dashboard_summary_affected
completes = refl

update_in_tx_writes_example :
    (updated : Order) × Follows (target_of directory completing printer) updated
    × (completion.1.db.orders
        ≡ update_live updated.id (set_columns world updated (at_second 0)) (printer ∷ phone ∷ []))
update_in_tx_writes_example =
    update_in_tx_writes world directory engine request 1 printer context plain_update none
      completing store (true, true) completion.1 completes

update_order_frame_example :
    others 1
      (update_order world directory engine request 1 plain_update none completing store).1.db.orders
    ≡ phone ∷ []
update_order_frame_example =
    update_order_frame world directory engine request 1 plain_update none completing refl store

abbrev foreign : Fields
foreign = ("id", number 2) ∷ ("name", text "Taken") ∷ []

abbrev overreach : Result (Bool × Bool) × Store
overreach =
    update_in_tx world directory engine request 1 printer context plain_update none foreign store

overreaches :
    update_in_tx world directory engine request 1 printer context plain_update none foreign store
    ≡ (ok (false, true), overreach.1)
unfolding update_in_tx ◌>>=◌ new_uuid time_now apply_update_executor_routing smart_update
    detect_and_log_changes trim_space log_draft add_history_and_publish attempt calculate_metrics
    is_order_resolved_status update dashboard_summary_affected
overreaches = refl

update_in_tx_overreach_example :
    (updated : Order) × Follows (target_of directory foreign printer) updated
    × (overreach.1.db.orders
        ≡ update_live 2 (set_columns world updated (at_second 0)) (printer ∷ phone ∷ []))
update_in_tx_overreach_example =
    update_in_tx_overreach world directory engine request 1 printer context plain_update none
      foreign 2 refl store (false, true) overreach.1 overreaches

abbrev creation : Result ℕ × Store
creation = create_in_tx world directory engine request new_desk none alice store

creates : create_in_tx world directory engine request new_desk none alice store ≡ (ok 3, creation.1)
unfolding create_in_tx ◌>>=◌ new_uuid create attempt log_history_event time_now
    add_history_and_publish
creates = refl

create_in_tx_creates_example :
    (routing : RoutingResult) × (status : Status) × (route
        (record {
          order_type_id = 0;
          department_id = 3;
          otdel_id = none;
          branch_id = none;
          office_id = none;
        })
        none
      ≡ ok routing)
    × (directory.find_status_by_code "OPEN" ≡ some status)
    × (routing.executor.id ≢ 0)
    × (creation.1.db.orders
        ≡ (printer ∷ phone ∷ [])
          ++ inserted world (new_order new_desk status.id 7 routing.executor.id) 3 (at_second 0)
            ∷ [])
    × (3 ≡ store.next_order_id)
create_in_tx_creates_example =
    create_in_tx_creates world directory engine request new_desk none alice store 3 creation.1
      creates

abbrev renamed : Order
renamed = record printer { name = "Old printer"; status_id = 2 }

abbrev logging : Result Bool × Store
logging = detect_and_log_changes world directory printer renamed none alice 0 (at_second 5) store

logs :
    detect_and_log_changes world directory printer renamed none alice 0 (at_second 5) store
    ≡ (ok true, logging.1)
unfolding detect_and_log_changes ◌>>=◌ log_draft time_now add_history_and_publish attempt
logs = refl

detect_and_log_changes_complete_example :
    (items : List HistoryItem) × (logging.1.db.history ≡ [] ++ items)
    × ((e : EventType) → count_events e items ≡ bit (reported directory printer renamed none e))
    × (true ≡ any_item items)
detect_and_log_changes_complete_example =
    detect_and_log_changes_complete world directory printer renamed none alice 0 (at_second 5) store
      true logging.1 logs

committed :
    run_in_transaction world (create_in_tx world directory engine request new_desk none alice) store
    ≡ (
      ok 3,
      (run_in_transaction world
          (create_in_tx world directory engine request new_desk none alice)
          store).1,
    )
unfolding run_in_transaction ◌>>=◌ attempt time_now create_in_tx new_uuid create log_history_event
    add_history_and_publish
committed = refl

unresolved : IsSettled (is_resolved find_status 1) printer
unfolding is_order_resolved_status
unresolved = record { completed = refl; timed = refl; claimed = λ h. cc }

sent_no_metric : KeepsMetrics printer renamed
sent_no_metric = record {
  same_completed = refl;
  same_resolution = refl;
  same_response = refl;
  same_contact = refl;
}

calculate_metrics-IsSettled_example :
    IsSettled
      (is_resolved find_status 2)
      (calculate_metrics find_status renamed printer (some "Done") 8 (at_second 61000000000))
calculate_metrics-IsSettled_example =
    calculate_metrics-IsSettled find_status printer renamed (some "Done") 8 (at_second 61000000000)
      unresolved sent_no_metric

abbrev readdressed : Order
readdressed = record printer { address = some "Main street" }

quiet :
    detect_persisted_metric_changes printer
      (calculate_metrics find_status readdressed printer none 7 (at_second 61000000000))
    ≡ false
unfolding detect_persisted_metric_changes calculate_metrics is_order_resolved_status
quiet = refl

unaffected : dashboard_summary_affected printer readdressed ≡ false
unfolding dashboard_summary_affected
unaffected = refl

answered_in_a_minute :
    (calculate_metrics find_status renamed printer
      (some "Done")
      8
      (at_second 61000000000)).first_response_time_seconds
    ≡ some 60
unfolding calculate_metrics is_order_resolved_status
answered_in_a_minute = refl

earned :
    (calculate_metrics find_status renamed printer
      (some "Done")
      8
      (at_second 61000000000)).first_response_time_seconds
    ≢ renamed.first_response_time_seconds
earned h = cc (sym answered_in_a_minute ∙ h)

first_response_earned_example :
    ((printer.first_response_time_seconds ≡ none) ⊎ (printer.first_response_time_seconds ≡ some 0))
    × ((printer.executor_id ≡ some 8) ⊎ (renamed.executor_id ≡ some 8))
    × ((renamed.status_id ≢ printer.status_id)
        ⊎ (renamed.executor_id ≢ printer.executor_id)
        ⊎ (has_comment (some "Done") ≡ true))
    × ((calculate_metrics find_status renamed printer
          (some "Done")
          8
          (at_second 61000000000)).first_response_time_seconds
        ≡ some (elapsed_seconds (at_second 1000000000) (at_second 61000000000)))
first_response_earned_example =
    first_response_earned find_status printer renamed (some "Done") 8 (at_second 61000000000) earned

abbrev answered : Order
answered = record printer { first_response_time_seconds = some 30 }

nothing : has_changes directory.parse_time (("name", text "Printer") ∷ []) printer ≡ false
unfolding has_changes
nothing = refl

abbrev all_rights : RequestContext
all_rights = record {
  user_id = some 7;
  permissions = some (
      "scope:all" ∷ "order:create" ∷ "order:view" ∷ "order:create:name"
      ∷ "order:create:department_id" ∷ []);
  user_entity = none;
}

abbrev desk_response : OrderResponse
desk_response = record {
  order = record (new_order new_desk 1 7 8) {
    id = 3;
    created_at = at_second 61000000000;
    updated_at = at_second 61000000000;
  };
  executor_name = none;
  resolution_time_formatted = "";
  first_response_time_formatted = "";
  attachments = [];
}

answers :
    create_order world directory engine all_rights new_desk none store
    ≡ (ok desk_response, (create_order world directory engine all_rights new_desk none store).1)
unfolding create_order ◌>>=◌ build_authz_context can_do can_access_order get_action
    validate_create_field_permissions check_fields trim_space validate_order_rules
    run_in_transaction attempt time_now new_uuid create create_in_tx new_order log_history_event
    add_history_and_publish find_order_by_id find_by_id target_order to_response_dto
    invalidate_dashboard_cache
answers = refl

create_order_creates_example :
    (auth : Context) × Admitted world directory engine all_rights auth
    × (routing : RoutingResult) × (status : Status) × (directory.find_status_by_code "OPEN"
        ≡ some status)
    × (routing.executor.id ≢ 0)
    × ((create_order world directory engine all_rights new_desk none store).1.db.orders
        ≡ (printer ∷ phone ∷ [])
          ++ inserted world
              (new_order new_desk status.id auth.actor.id routing.executor.id)
              3
              (at_second 61000000000)
            ∷ [])
    × (3 ≡ store.next_order_id)
create_order_creates_example =
    create_order_creates world directory engine all_rights new_desk none store desk_response
      (create_order world directory engine all_rights new_desk none store).1 answers
