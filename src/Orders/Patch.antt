-- ===== src/Orders/Patch.antt =====
-- `SmartUpdate` and `convertType` of pkg/utils/patch.go, on the fields of `entities.Order`: the
-- keys of the request are matched with the json tags of the entity. Reflection is unrolled, one
-- line to a field in the order of the struct; `deleted_at` has the tag "-" and is passed over.
pub mod Fields
use request_system.Common.{
  ℕ, String, Bool, true, false, ◌&&◌, ◌||◌, Option, none, some, List, [], ◌∷◌, if◌then◌else◌, ◌==◌,
  str_eq, bool_eq, is_some, ◌≡◌, refl,
}
use request_system.Entities.{Order, Time}

-- A decoded JSON value, as far as the fields of an order can tell. A number is a float64, and each
-- number field an unsigned integer of 64 bits: `number n` is one from 0 and below 2^64 that is n when
-- its fraction is cut off; `outside n` is one below 0 or from 2^64, for which Go leaves it to the
-- machine what the conversion gives, and n is what it gives. `compound` is an object or an array.
pub data Value : Type 0 where
  null : Value
  number : ℕ → Value
  outside : ℕ → Value
  text : String → Value
  time : Time → Value
  flag : Bool → Value
  compound : Value

abbrev pub Fields : Type 0
Fields = List (String × Value)

abbrev pub lookup : String → Fields → Option Value
lookup key [] = none
lookup key ((k, v) ∷ rest) = if str_eq k key then some v else lookup key rest

-- `convertType` at each type of a field; `none` where it returns nil.
abbrev pub to_number : Value → Option ℕ
to_number (number n) = some n
to_number (outside n) = some n
to_number _ = none

abbrev pub to_text : Value → Option String
to_text (text s) = some s
to_text _ = none

abbrev pub to_flag : Value → Option Bool
to_flag (flag b) = some b
to_flag _ = none

-- `parse` stands for `time.Parse` over the layouts that the function tries.
abbrev pub to_time : (String → Option Time) → Value → Option Time
to_time parse (time t) = some t
to_time parse (text s) = parse s
to_time parse _ = none

-- Go's `==` on times.
abbrev pub time_same : Time → Time → Bool
time_same a b = a.nanos == b.nanos && a.zone == b.zone

module _ {A : Type 0} (convert : Value → Option A) (same : A → A → Bool) where
  abbrev set_plain : A → Option A → A × Bool
  set_plain old none = (old, false)
  set_plain old (some a) = if same old a then (old, false) else (a, true)

  abbrev set_pointer : Option A → Option A → Option A × Bool
  set_pointer old none = (old, false)
  set_pointer none (some a) = (some a, true)
  set_pointer (some b) (some a) = if same b a then (some b, false) else (some a, true)

  -- A field that is no pointer: null changes nothing.
  unfoldable pub assign : Option Value → A → A × Bool
  assign none old = (old, false)
  assign (some null) old = (old, false)
  assign (some v) old = set_plain old (convert v)

  -- A pointer: null clears it.
  unfoldable pub assign_pointer : Option Value → Option A → Option A × Bool
  assign_pointer none old = (old, false)
  assign_pointer (some null) old = (none, is_some old)
  assign_pointer (some v) old = set_pointer old (convert v)

module _ (parse : String → Option Time) (changes : Fields) where
  abbrev patch_number : String → ℕ → ℕ × Bool
  patch_number key = assign to_number ◌==◌ (lookup key changes)

  abbrev patch_id : String → Option ℕ → Option ℕ × Bool
  patch_id key = assign_pointer to_number ◌==◌ (lookup key changes)

  abbrev patch_text : String → String → String × Bool
  patch_text key = assign to_text str_eq (lookup key changes)

  abbrev patch_text_pointer : String → Option String → Option String × Bool
  patch_text_pointer key = assign_pointer to_text str_eq (lookup key changes)

  abbrev patch_time : String → Time → Time × Bool
  patch_time key = assign (to_time parse) time_same (lookup key changes)

  abbrev patch_time_pointer : String → Option Time → Option Time × Bool
  patch_time_pointer key = assign_pointer (to_time parse) time_same (lookup key changes)

  -- The entity after the loop.
  unfoldable pub patched : Order → Order
  unfolding assign assign_pointer
  patched o = record {
    id = (patch_number "id" o.id).0;
    name = (patch_text "name" o.name).0;
    department_id = (patch_id "department_id" o.department_id).0;
    status_id = (patch_number "status_id" o.status_id).0;
    creator_id = (patch_number "user_id" o.creator_id).0;
    order_type_id = (patch_id "order_type_id" o.order_type_id).0;
    otdel_id = (patch_id "otdel_id" o.otdel_id).0;
    priority_id = (patch_id "priority_id" o.priority_id).0;
    branch_id = (patch_id "branch_id" o.branch_id).0;
    office_id = (patch_id "office_id" o.office_id).0;
    equipment_id = (patch_id "equipment_id" o.equipment_id).0;
    equipment_type_id = (patch_id "equipment_type_id" o.equipment_type_id).0;
    executor_id = (patch_id "executor_id" o.executor_id).0;
    duration = (patch_time_pointer "duration" o.duration).0;
    address = (patch_text_pointer "address" o.address).0;
    created_at = (patch_time "created_at" o.created_at).0;
    updated_at = (patch_time "updated_at" o.updated_at).0;
    deleted_at = o.deleted_at;
    completed_at = (patch_time_pointer "completed_at" o.completed_at).0;
    first_response_time_seconds =
        (patch_id "first_response_time_seconds" o.first_response_time_seconds).0;
    resolution_time_seconds = (patch_id "resolution_time_seconds" o.resolution_time_seconds).0;
    is_first_contact_resolution =
        (assign_pointer to_flag bool_eq (lookup "is_first_contact_resolution" changes)
          o.is_first_contact_resolution).0;
    creator_name = (patch_text "creator_name" o.creator_name).0;
    executor_name = (patch_text_pointer "executor_name" o.executor_name).0;
  }

  -- `hasChanges` after the loop.
  unfoldable pub has_changes : Order → Bool
  unfolding assign assign_pointer
  has_changes o =
      (patch_number "id" o.id).1
      || (patch_text "name" o.name).1
      || (patch_id "department_id" o.department_id).1
      || (patch_number "status_id" o.status_id).1
      || (patch_number "user_id" o.creator_id).1
      || (patch_id "order_type_id" o.order_type_id).1
      || (patch_id "otdel_id" o.otdel_id).1
      || (patch_id "priority_id" o.priority_id).1
      || (patch_id "branch_id" o.branch_id).1
      || (patch_id "office_id" o.office_id).1
      || (patch_id "equipment_id" o.equipment_id).1
      || (patch_id "equipment_type_id" o.equipment_type_id).1
      || (patch_id "executor_id" o.executor_id).1
      || (patch_time_pointer "duration" o.duration).1
      || (patch_text_pointer "address" o.address).1
      || (patch_time "created_at" o.created_at).1
      || (patch_time "updated_at" o.updated_at).1
      || (patch_time_pointer "completed_at" o.completed_at).1
      || (patch_id "first_response_time_seconds" o.first_response_time_seconds).1
      || (patch_id "resolution_time_seconds" o.resolution_time_seconds).1
      || (assign_pointer to_flag bool_eq (lookup "is_first_contact_resolution" changes)
          o.is_first_contact_resolution).1
      || (patch_text "creator_name" o.creator_name).1
      || (patch_text_pointer "executor_name" o.executor_name).1

  unfoldable pub smart_update : Order → Order × Bool
  unfolding patched has_changes
  smart_update o = (patched o, has_changes o)
