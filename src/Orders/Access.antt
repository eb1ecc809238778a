-- ===== src/Orders/Access.antt =====
-- Who asks for an order, and what he may see: internal/services/order.go,
-- order_service_query_helpers.go, order_service_list.go (`FindOrderByID`,
-- `FindOrderByIDForTelegram`) and order_service_delete.go.
pub mod Reading
pub mod Visibility
pub mod Deletion
use Prim.Native.String.{◌++◌ as concat}
use request_system.Common.{
  take, ℕ, zero, suc, String, Bool, true, false, ◌&&◌, ◌||◌, not, Option, none, some, List, [], ◌∷◌,
  map, reverse, if◌then◌else◌, ◌==◌, is_some, points_to, select, format_seconds_to_human_readable,
}
use request_system.Entities.{Order, User, Attachment}
use request_system.Errors.{
  Result, ok, err, panic, err_unauthorized, err_forbidden, err_user_not_found,
  new_bad_request_error,
}
use request_system.Authz.{Context, Target, no_target, order_target, can_do}
use request_system.Authz.Permissions.{orders_view, orders_delete}
use request_system.Orders.Store.{
  Store, World, M, pure, fail, lift, continue, ◌>>=◌, ◌>>◌, or_fail, guard, modify, attempt,
  find_by_id, is_user_participant, delete, invalidate_dashboard_cache, list_attachments,
}
use request_system.Orders.History.{Directory}
use request_system.Orders.Requests.{RequestContext, OrderResponse, AttachmentResponse}

-- `resolveActorFromContext`: the middleware's user if it is the one, else a lookup.
unfoldable pub resolve_actor : Directory → RequestContext → ℕ → Option User
resolve_actor dir rc user_id = elim rc.user_entity [
  | none ↦ dir.find_user user_id
  | some actor ↦ if actor.id == user_id then some actor else dir.find_user user_id
]

attachment_response : Attachment → AttachmentResponse
attachment_response a = record {
  id = a.id;
  file_name = a.file_name;
  url = concat "/uploads/" a.file_path;
}

abbrev format_seconds : Option ℕ → String
format_seconds none = ""
format_seconds (some n) = format_seconds_to_human_readable n

unfoldable pub to_response_dto : Order → List Attachment → OrderResponse
unfolding attachment_response
to_response_dto o attachments = record {
  order = o;
  executor_name = if is_some o.executor_id then o.executor_name else none;
  resolution_time_formatted = format_seconds o.resolution_time_seconds;
  first_response_time_formatted = format_seconds o.first_response_time_seconds;
  attachments = map attachment_response attachments;
}

module _ (w : World) (dir : Directory) (rc : RequestContext) where
  -- The three lookups that both ways to a context begin with.
  unfoldable pub acting_user : Result (User × List String)
  unfolding resolve_actor
  acting_user = elim rc.user_id [
    | none ↦ err err_unauthorized
    | some user_id ↦ elim rc.permissions [
      | none ↦ err err_unauthorized
      | some permissions ↦ elim (resolve_actor dir rc user_id) [
        | none ↦ err err_user_not_found
        | some actor ↦ ok (actor, permissions)
      ]
    ]
  ]

  -- `GetUserIDFromCtx`, where it is known to succeed.
  abbrev asking_id : ℕ
  asking_id = elim rc.user_id [ none ↦ 0 | some user_id ↦ user_id ]

  unfoldable pub build_authz_context_with_target : Order → M Context
  unfolding acting_user
  build_authz_context_with_target target = do
    (actor, permissions) ← lift acting_user
    λ s. (
      ok (record {
        actor = actor;
        permissions = permissions;
        target = order_target target;
        is_participant =
            target.creator_id == asking_id
            || points_to target.executor_id asking_id
            || is_user_participant w target.id asking_id s;
        current_permission = "";
      }),
      s,
    )

  -- `buildAuthzContext(ctx, 0)`.
  unfoldable pub build_authz_context_without_target : M Context
  unfolding acting_user
  build_authz_context_without_target = do
    (actor, permissions) ← lift acting_user
    pure (record {
      actor = actor;
      permissions = permissions;
      target = no_target;
      is_participant = false;
      current_permission = "";
    })

  unfoldable pub build_authz_context : ℕ → M Context
  unfolding build_authz_context_without_target build_authz_context_with_target
  build_authz_context order_id =
      if order_id == 0
      then build_authz_context_without_target
      else (do target ← find_by_id w order_id; build_authz_context_with_target target)

  -- `loadOrderAttachments`: a fault is logged, and gives none. The query wants the newest first,
  -- and the table holds the rows as they were inserted.
  load_order_attachments : ℕ → Store → List Attachment
  load_order_attachments order_id s =
      if is_some (w.fault (list_attachments order_id))
      then []
      else take 100 (reverse (select (λ (a : Attachment). a.order_id == order_id) s.db.attachments))

  -- The type assertion on the target panics where there is no order.
  unfoldable pub target_order : Target → M Order
  target_order (order_target o) = pure o
  target_order _ = fail panic

  unfoldable pub find_order_by_id : ℕ → M OrderResponse
  unfolding build_authz_context target_order load_order_attachments to_response_dto
  find_order_by_id order_id = do
    auth ← build_authz_context order_id
    guard (can_do orders_view auth) err_forbidden
    o ← target_order auth.target
    λ s. (ok (to_response_dto o (load_order_attachments o.id s)), s)

  -- `FindOrderByIDForTelegram`. The permissions come from the context, or else from
  -- `permissions_of`, the permission service; the participation is not looked up.
  unfoldable pub find_order_by_id_for_telegram : (ℕ → Option (List String)) → ℕ → ℕ → M Order
  unfolding resolve_actor
  find_order_by_id_for_telegram permissions_of user_id order_id = do
    guard (not (user_id == 0)) err_user_not_found
    guard (not (order_id == 0)) (new_bad_request_error "ID заявки не указан.")
    o ← find_by_id w order_id
    permissions ←
        or_fail (elim rc.permissions [ none ↦ permissions_of user_id | some ps ↦ some ps ])
          err_unauthorized
    user ← or_fail (resolve_actor dir rc user_id) err_user_not_found
    guard
        (can_do orders_view (record {
          actor = user;
          permissions = permissions;
          target = order_target o;
          is_participant = false;
          current_permission = "";
        }))
        err_forbidden
    pure o

  unfoldable pub delete_order : ℕ → M (Unit {0})
  unfolding build_authz_context
  delete_order order_id = do
    auth ← build_authz_context order_id
    guard (can_do orders_delete auth) err_forbidden
    delete w order_id
    modify (invalidate_dashboard_cache w true true)
