-- ===== src/Orders/Update/Guarded.antt =====
-- What a request that passes the check of the fields' permissions may make of a stored order.
use request_system.Common.{
  String, Bool, true, false, Option, none, some, is_some, ◌≡◌, refl, In, inl, inr,
}
use request_system.Entities.{Order, Time}
use request_system.Errors.{ok}
use request_system.Authz.{Context, can_do}
use request_system.Orders.Patch.{Value, Fields, lookup, patched, assign, assign_pointer}
use request_system.Orders.History.{File}
use request_system.Orders.Validation.{
  FieldPermission, sent, order_update_field_permissions, validate_update_field_permissions,
}
use request_system.Orders.Validation.Permitted.{Permitted, validate_update_field_permissions_iff}

not_sent : (v : Option Value) (b : Bool) → (is_some v ≡ true → b ≡ true) → b ≡ false → v ≡ none
not_sent none b h e = refl
not_sent (some v) b h e = let g = h refl in cc

-- Each column that the table guards is the old one where its permission is missing.
pub record Kept (auth : Context) (old new : Order) : Type 0 where
  pub name : can_do "order:update:name" auth ≡ false → new.name ≡ old.name
  pub address : can_do "order:update:address" auth ≡ false → new.address ≡ old.address
  pub department_id :
      can_do "order:update:department_id" auth ≡ false → new.department_id ≡ old.department_id
  pub otdel_id : can_do "order:update:otdel_id" auth ≡ false → new.otdel_id ≡ old.otdel_id
  pub branch_id : can_do "order:update:branch_id" auth ≡ false → new.branch_id ≡ old.branch_id
  pub office_id : can_do "order:update:office_id" auth ≡ false → new.office_id ≡ old.office_id
  pub equipment_id :
      can_do "order:update:equipment_id" auth ≡ false → new.equipment_id ≡ old.equipment_id
  pub equipment_type_id :
      can_do "order:update:equipment_type_id" auth ≡ false
      → new.equipment_type_id ≡ old.equipment_type_id
  pub executor_id :
      can_do "order:update:executor_id" auth ≡ false → new.executor_id ≡ old.executor_id
  pub status_id : can_do "order:update:status_id" auth ≡ false → new.status_id ≡ old.status_id
  pub priority_id :
      can_do "order:update:priority_id" auth ≡ false → new.priority_id ≡ old.priority_id
  pub duration : can_do "order:update:duration" auth ≡ false → new.duration ≡ old.duration

module _ (auth : Context) (fields : Fields)
    (permitted : Permitted auth (sent fields) order_update_field_permissions) where
  unsent :
      (spec : FieldPermission)
      → In spec order_update_field_permissions
      → can_do spec.permission auth ≡ false
      → lookup spec.field fields ≡ none
  unsent spec m h =
      not_sent (lookup spec.field fields) (can_do spec.permission auth) (permitted spec m) h

  patched-Kept : (parse : String → Option Time) (o : Order) → Kept auth o (patched parse fields o)
  unfolding patched assign assign_pointer
  patched-Kept parse o = record {
    name = λ h. rw (unsent _ (inl refl) h) refl;
    address = λ h. rw (unsent _ (inr (inl refl)) h) refl;
    department_id = λ h. rw (unsent _ (inr (inr (inl refl))) h) refl;
    otdel_id = λ h. rw (unsent _ (inr (inr (inr (inl refl)))) h) refl;
    branch_id = λ h. rw (unsent _ (inr (inr (inr (inr (inl refl))))) h) refl;
    office_id = λ h. rw (unsent _ (inr (inr (inr (inr (inr (inl refl)))))) h) refl;
    equipment_id = λ h. rw (unsent _ (inr (inr (inr (inr (inr (inr (inl refl))))))) h) refl;
    equipment_type_id =
        λ h. rw (unsent _ (inr (inr (inr (inr (inr (inr (inr (inl refl)))))))) h) refl;
    executor_id =
        λ h. rw (unsent _ (inr (inr (inr (inr (inr (inr (inr (inr (inl refl))))))))) h) refl;
    status_id =
        λ h. rw (unsent _ (inr (inr (inr (inr (inr (inr (inr (inr (inr (inl refl)))))))))) h) refl;
    priority_id = λ h.
        rw (unsent _ (inr (inr (inr (inr (inr (inr (inr (inr (inr (inr (inl refl))))))))))) h) refl;
    duration = λ h.
        rw (unsent _ (inr (inr (inr (inr (inr (inr (inr (inr (inr (inr (inr (inl refl)))))))))))) h)
          refl;
  }

-- A request that passes the check of the fields' permissions leaves, in the patched copy of the
-- order, the name, address, department, section, branch, office, equipment and its type, executor,
-- status, priority and term as they were, each where the user lacks its permission.
pub validate_update_field_permissions-patched :
    (auth : Context) (fields : Fields) (file : Option File)
    → validate_update_field_permissions auth fields file ≡ ok tt
    → (parse : String → Option Time) (o : Order) → Kept auth o (patched parse fields o)
validate_update_field_permissions-patched auth fields file h =
    patched-Kept auth fields ((validate_update_field_permissions_iff auth fields file).0 h).0
