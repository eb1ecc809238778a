-- ===== src/Examples/Access.antt =====
-- The theorems on who may do what, applied.
use request_system.Common.{
  String, true, false, none, some, [], ◌∷◌, ◌≡◌, ◌≢◌, ◌↔◌, refl, In, any, has_key, arith,
}
use request_system.Entities.{Order}
use request_system.Errors.{ok}
use request_system.Authz.{Context, can_do, get_action, user_target}
use request_system.Authz.Theorems.{
  Has, MayView, MayChange, MayManage, about_order, can_do-view_iff, can_do-change_iff,
  can_do-user_iff,
}
use request_system.Orders.Store.{Store, is_live}
use request_system.Orders.Patch.{Fields, number, patched}
use request_system.Orders.Requests.{OrderResponse, UpdateOrderDto}
use request_system.Orders.Access.{find_order_by_id, delete_order}
use request_system.Orders.Access.Visibility.{Asks, find_order_by_id_sound}
use request_system.Orders.Access.Deletion.{Deleted, delete_order_deletes}
use request_system.Orders.Validation.{
  validate_update_field_permissions, validate_create_field_permissions,
  order_update_field_permissions, order_create_field_permissions, sent, present_fields,
  apply_update_executor_routing,
}
use request_system.Orders.Validation.Permitted.{
  Permitted, PermittedFile, validate_update_field_permissions_iff,
  validate_create_field_permissions_iff,
}
use request_system.Orders.Update.Guarded.{Kept, validate_update_field_permissions-patched}
use request_system.Examples.{
  bob, printer, phone, store, world, directory, engine, request, context, granted, completing,
  plain_update, new_desk,
}

views : get_action "order:view" ≡ "view"
unfolding get_action
views = refl

updates : get_action "order:update" ≢ "view"
unfolding get_action
updates e = cc

can_do-view_iff_example :
    (can_do "order:view" (about_order context phone) ≡ true)
    ↔ (Has context "order:view" × MayView context phone)
can_do-view_iff_example = can_do-view_iff "order:view" context phone views

can_do-change_iff_example :
    (can_do "order:update" (about_order context printer) ≡ true)
    ↔ (Has context "order:update" × MayChange context printer)
can_do-change_iff_example = can_do-change_iff "order:update" context printer updates

can_do-user_iff_example :
    (can_do "user:update" (record context { target = user_target bob }) ≡ true) ↔ (
      Has context "user:update"
      × MayManage (record context { current_permission = "user:update" }) bob)
can_do-user_iff_example = can_do-user_iff "user:update" context bob

kept : (k : String) → has_key k granted ≡ true → has_key k ("scope:all" ∷ granted) ≡ true
kept k h = ground arith

may_update : can_do "order:update" context ≡ true
unfolding can_do request_system.Authz.can_access_order get_action
may_update = refl

abbrev shown : OrderResponse
shown = record {
  order = printer;
  executor_name = some "Bob";
  resolution_time_formatted = "";
  first_response_time_formatted = "";
  attachments = [];
}

shows : (find_order_by_id world directory request 1 store).0 ≡ ok shown
unfolding find_order_by_id request_system.Orders.Store.◌>>=◌ request_system.Orders.Store.find_by_id
    request_system.Orders.Store.attempt can_do request_system.Authz.can_access_order get_action
shows = refl

find_order_by_id_sound_example :
    In printer (printer ∷ phone ∷ [])
    × (is_live 1 printer ≡ true)
    × ((ctx : Context) × Asks world directory request store printer ctx
        × Has ctx "order:view"
        × MayView ctx printer)
find_order_by_id_sound_example = find_order_by_id_sound world directory request 1 store shown shows

deletes :
    delete_order world directory request 1 store
    ≡ (ok tt, (delete_order world directory request 1 store).1)
unfolding delete_order request_system.Orders.Store.◌>>=◌ request_system.Orders.Store.find_by_id
    request_system.Orders.Store.attempt can_do request_system.Authz.can_access_order get_action
    request_system.Orders.Store.delete request_system.Orders.Store.time_now
deletes = refl

delete_order_deletes_example :
    Deleted 1 store.db (delete_order world directory request 1 store).1
    × (any (is_live 1) (delete_order world directory request 1 store).1.db.orders ≡ false)
delete_order_deletes_example =
    delete_order_deletes world directory request 1 store tt
      (delete_order world directory request 1 store).1 deletes

validate_update_field_permissions_iff_example :
    (validate_update_field_permissions context completing none ≡ ok tt) ↔ (
      Permitted context (sent completing) order_update_field_permissions
      × PermittedFile context none "order:update:file")
validate_update_field_permissions_iff_example =
    validate_update_field_permissions_iff context completing none

validate_create_field_permissions_iff_example :
    (validate_create_field_permissions context new_desk none ≡ ok tt) ↔ (
      Permitted context (present_fields new_desk) order_create_field_permissions
      × PermittedFile context none "order:create:file")
validate_create_field_permissions_iff_example =
    validate_create_field_permissions_iff context new_desk none

abbrev naming : Fields
naming = ("executor_id", number 8) ∷ []

abbrev named : UpdateOrderDto
named = record { comment = none; executor_id = some 8 }

names_bob :
    apply_update_executor_routing engine context printer printer named naming
    ≡ ok (record printer { executor_id = some 8 }, true)
unfolding apply_update_executor_routing can_do request_system.Authz.can_access_order get_action
names_bob = refl

abbrev moved : Order
moved = record printer { department_id = some 4 }

moves :
    apply_update_executor_routing engine context printer moved plain_update []
    ≡ ok (record moved { executor_id = some 8 }, true)
unfolding apply_update_executor_routing
moves = refl

admits : validate_update_field_permissions context completing none ≡ ok tt
unfolding validate_update_field_permissions can_do request_system.Authz.can_access_order get_action
admits = refl

validate_update_field_permissions-patched_example :
    Kept context printer (patched directory.parse_time completing printer)
validate_update_field_permissions-patched_example =
    validate_update_field_permissions-patched context completing none admits directory.parse_time
      printer
