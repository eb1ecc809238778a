-- ===== src/Lib.antt =====
-- The request system keeps the orders of an organisation's help desk: who may see and change an
-- order, how it is created, routed to an executor, changed and deleted, what is written into its
-- history, and which times are measured on it. This library models the order service and what it
-- stands on.
--
-- Parts, and how they correspond to the code:
--   Authz          internal/authz/engine.go and permissions.go: `can_do` is CanDo, `view_order` and
--                  `change_order` are the two ladders of canAccessOrder, `can_access_user` that of
--                  canAccessUser.
--   Errors         pkg/errors/errors.go: the error values, and `wrap_db_error` for WrapDBError;
--                  `Errors.Constraints` and `Errors.Mapping` read its tables.
--   Entities       internal/entities: rows as records, a pointer to a value as an option.
--   Orders.Store   internal/repositories/transaction.go, order-repository.go and
--                  order_history-repository.go: the tables are lists, an action takes the store and
--                  gives its result beside the new store. `run_in_transaction` is RunInTransaction.
--   Orders.Patch   pkg/utils/patch.go: `smart_update` is SmartUpdate on the entity of an order, with
--                  reflection unrolled.
--   Orders.Metrics order_service_metrics.go: `calculate_metrics`, `dashboard_summary_affected`.
--   Orders.History order_service_history.go: `changes` is the list of if statements of
--                  detectAndLogChanges, `log_changes` runs them.
--   Orders.Requests internal/dto/order-dto.go and the interface of the rule engine.
--   Orders.Validation order_service_validation.go with the tables of order.go.
--   Orders.Create, Orders.Update  order_service_create.go and order_service_update.go: the admission,
--                  the function that runs in the transaction and what follows it are definitions of
--                  their own, composed as the code composes them.
--   Routing        rule_engine_service.go: `resolve_executor` is ResolveExecutor, `waterfall` and
--                  `find_leader` are resolveByHierarchy, `chosen_rule` is the query for a rule;
--                  `rule_engine` gives the order service its interface, and
--                  `Routing.Reassignment` is about an update that uses it.
--   Orders.Access  order_service_list.go, order_service_query_helpers.go, order_service_delete.go.
--   Orders.Listing  GetOrders of order_service_list.go, getOrdersRefactored of order-repository.go and
--                  internal/infrastructure/bd/builder.go: the SQL conditions are data, a condition on
--                  who may see a row is decided here, a filter of the request (`Filters`) by the
--                  database.
--   Orders.Timeline order_history.go and FindByOrderID: `Names` is the resolver of names, over a
--                  state of the caller's choice, `Texts` the text of a change of structure, `Lines`
--                  lineForEvent and the actors, `Blocks` the page and the loop over it.
--   Auth           auth.go: Login and the reset of a password, over the accounts and the entries of
--                  the cache, with redis_cache_repository.go; Active Directory, hashes, UUIDs and
--                  random codes are a record of what is outside.
--   Websocket      pkg/websocket/hub.go and client.go: each case of Hub.Run is an operation, a client
--                  is its address, and the channels are part of the state; sending on a closed one
--                  is a panic.
--   Grants         permission-repository.go, auth_permission_service.go, UpdateUserPermissions of
--                  user-service.go, role.go with role-repository.go: the tables and the entries of the
--                  cache are one state. `Grants.Roles` and `Grants.Users` are the services, `Grants.Gate`
--                  pkg/middleware/auth.go and pkg/service/jwt.go, the JWT library being its parameters.
--   Notices        internal/listeners/notification_listener.go: groups and running timers are the state,
--                  `handle_order_history_created` and `send_grouped_notification` the two moves on it;
--                  `Notices.Texts` and `Notices.Payload` are what is sent.
--   Common         shared tests, lists and texts (pkg/utils/time_helpers.go among them).
--   Examples       a small office, and the theorems applied to it.
-- The services stand in internal/services. The order service asks `can_do` before it acts, runs its
-- writes in one transaction, lets the rule engine choose an executor, and bumps the versions of the
-- dashboard's cache at the end.
--
-- The world outside is a record `World` of faults (each call of the database, the disk or the cache
-- may fail with an error), of the clock, and of what the database makes of a rollback, which PostgreSQL
-- documents; and a record `Directory` of lookups. A uint64 is a natural number: ids come from sequences
-- of the database, and the only arithmetic, on times, is written out with its sign. No definition needs fuel: every loop is over a list or a fixed table.
-- A panic is an error value that WrapDBError passes by. A JSON number is a float in the code: one from
-- 0 up to 2^64 is a natural number, its fraction cut as the conversion does; what a negative or a
-- larger one becomes depends on the machine, and any number may stand for it (`outside`).
--
-- The guards of a route ask `get_all_user_permissions`, whose cache the services of Grants drop; the
-- order service publishes the events that Notices gathers, which hands its payloads to Websocket.
--
-- Not modelled: logging; the order in which Go walks a map (the keys of a sort, the recipients of a
-- notification); the names that a query joins to an order; the text of wrapped errors that fmt.Errorf
-- puts in front; the HTTP layer, the database itself, reports, synchronisation and the Telegram bot.
-- Two requests that run at once are not interleaved, but for the gap between the locks of the hub, the
-- events and timers of Notices, and a reading of permissions inside UpdateRole.
pub mod Auth
pub mod Authz
pub mod Common
pub mod Entities
pub mod Errors
pub mod Examples
pub mod Grants
pub mod Notices
pub mod Orders
pub mod Routing
pub mod Websocket
