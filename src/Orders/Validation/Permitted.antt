-- ===== src/Orders/Validation/Permitted.antt =====
-- Which requests the permissions of the fields admit.
use request_system.Common.{
  String, Bool, true, not, Option, List, [], ◌∷◌, ◌≡◌, refl, ◌↔◌, inl, inr, arith, In, Bool-cases,
  is_some, if◌then◌else◌, subst,
}
use request_system.Errors.{http, Result, ok, err}
use request_system.Authz.{Context, can_do}
use request_system.Orders.Patch.{Fields}
use request_system.Orders.History.{File}
use request_system.Orders.Requests.{CreateOrderDto}
use request_system.Orders.Validation.{
  FieldPermission, check_fields, check_file, require, sent, present_fields,
  order_update_field_permissions, order_create_field_permissions, validate_update_field_permissions,
  validate_create_field_permissions,
}
use request_system.Orders.Validation

-- Every field of the table that is there has its permission.
abbrev pub Permitted : Context → (String → Bool) → List FieldPermission → Type 0
Permitted auth present table =
    (spec : FieldPermission)
    → In spec table
    → present spec.field ≡ true
    → can_do spec.permission auth ≡ true

abbrev pub PermittedFile : Context → Option File → String → Type 0
PermittedFile auth file permission = is_some file ≡ true → can_do permission auth ≡ true

module _ (auth : Context) (present : String → Bool) (message : String → String) where
  spec_passes :
      (spec : FieldPermission) (later : Result (Unit {0}))
      → (if not (present spec.field)
          then later
          else if can_do spec.permission auth
          then later
          else err (http 403 (message spec.label)))
        ≡ ok tt
      → (present spec.field ≡ true → can_do spec.permission auth ≡ true) × (later ≡ ok tt)
  spec_passes spec later h = ground arith

  spec_admitted :
      (spec : FieldPermission) (later : Result (Unit {0}))
      → (present spec.field ≡ true → can_do spec.permission auth ≡ true)
      → later ≡ ok tt
      → (if not (present spec.field)
          then later
          else if can_do spec.permission auth
          then later
          else err (http 403 (message spec.label)))
        ≡ ok tt
  spec_admitted spec later h e = elim (Bool-cases (present spec.field)) [
    | inl p ↦ ground (arith, h p)
    | inr p ↦ ground arith
  ]

  check_fields-Permitted :
      (table : List FieldPermission)
      → check_fields auth present message table ≡ ok tt
      → Permitted auth present table
  unfolding check_fields
  check_fields-Permitted [] h spec m p = absurd m
  check_fields-Permitted (x ∷ rest) h spec (inl e) p =
      subst (λ (s : FieldPermission). present s.field ≡ true → can_do s.permission auth ≡ true) e
        (spec_passes x (check_fields auth present message rest) h).0 p
  check_fields-Permitted (x ∷ rest) h spec (inr m) p =
      check_fields-Permitted rest (spec_passes x (check_fields auth present message rest) h).1 spec
        m p

  check_fields_admits :
      (table : List FieldPermission)
      → Permitted auth present table
      → check_fields auth present message table ≡ ok tt
  unfolding check_fields
  check_fields_admits [] h = refl
  check_fields_admits (x ∷ rest) h =
      spec_admitted x (check_fields auth present message rest) (h x (inl refl))
        (check_fields_admits rest (λ s m. h s (inr m)))

module _ (auth : Context) (file : Option File) (permission message : String) where
  check_file_iff :
      (check_file auth file permission message ≡ ok tt) ↔ PermittedFile auth file permission
  unfolding check_file
  check_file_iff = elim (Bool-cases (is_some file)) [
    | inl p ↦ elim (Bool-cases (can_do permission auth)) [
      | inl q ↦ (λ h _. q, λ h. ground arith)
      | inr q ↦ (λ h _. ground arith, λ h. ground (arith, h p))
    ]
    | inr p ↦ (λ h q. cc, λ h. ground arith)
  ]

module _ (r q : Result (Unit {0})) where
  both_pass : Validation.◌>>=◌ r (λ _. q) ≡ ok tt → (r ≡ ok tt) × (q ≡ ok tt)
  both_pass h = ground arith

  both_admit : r ≡ ok tt → q ≡ ok tt → Validation.◌>>=◌ r (λ _. q) ≡ ok tt
  both_admit e h = ground arith

permissions_iff :
    (auth : Context) (present : String → Bool) (message : String → String)
    (table : List FieldPermission) (file : Option File) (permission refusal : String)
    → (Validation.◌>>=◌
          (check_fields auth present message table)
          (λ _. check_file auth file permission refusal)
        ≡ ok tt)
      ↔ (Permitted auth present table × PermittedFile auth file permission)
permissions_iff auth present message table file permission refusal =
    let (sound, complete) = check_file_iff auth file permission refusal in
    (
      λ h.
          let (a, b) = both_pass _ _ h in
          (check_fields-Permitted auth present message table a, sound b),
      λ (a, b). both_admit _ _ (check_fields_admits auth present message table a) (complete b),
    )

-- The check of an update passes exactly when each field of the table that the request sends has
-- its permission, and the file, if there is one, has the permission for files.
pub validate_update_field_permissions_iff :
    (auth : Context) (fields : Fields) (file : Option File)
    → (validate_update_field_permissions auth fields file ≡ ok tt) ↔ (
        Permitted auth (sent fields) order_update_field_permissions
        × PermittedFile auth file "order:update:file")
unfolding validate_update_field_permissions
validate_update_field_permissions_iff auth fields file =
    permissions_iff auth (sent fields) Validation.update_message order_update_field_permissions file
      "order:update:file" "У вас нет прав добавлять файл к заявке."

-- The check of a creation passes exactly when each field of its table that the request fills has
-- its permission, and the file, if there is one, has the permission for files.
pub validate_create_field_permissions_iff :
    (auth : Context) (d : CreateOrderDto) (file : Option File)
    → (validate_create_field_permissions auth d file ≡ ok tt) ↔ (
        Permitted auth (present_fields d) order_create_field_permissions
        × PermittedFile auth file "order:create:file")
unfolding validate_create_field_permissions
validate_create_field_permissions_iff auth d file =
    permissions_iff auth (present_fields d) Validation.create_message order_create_field_permissions
      file "order:create:file" "У вас нет прав добавлять файл при создании заявки."
