-- ===== src/Orders/Patch/Fields.antt =====
-- Which fields of the entity a request writes.
use request_system.Common.{
  ℕ, String, Bool, false, Option, none, some, ◌≡◌, refl, arith, ◌==◌, str_eq, bool_eq, ◌||◌,
}
use request_system.Entities.{Order, Time}
use request_system.Orders.Patch.{
  Value, Fields, lookup, number, patched, has_changes, assign, assign_pointer, to_number, to_text,
  to_flag, to_time, time_same,
}

module _ (parse : String → Option Time) (changes : Fields) (o : Order) where
  -- A request without the key "id" leaves the entity's id.
  pub patched-id_kept : lookup "id" changes ≡ none → (patched parse changes o).id ≡ o.id
  unfolding patched assign
  patched-id_kept e = rw (e, assign) refl

  pub patched-id_sent :
      (n : ℕ) → lookup "id" changes ≡ some (number n) → (patched parse changes o).id ≡ n
  unfolding patched assign
  patched-id_sent n e = rw (e, assign) ground arith

module _ {A : Type 0} (convert : Value → Option A) (same : A → A → Bool) where
  assign-kept :
      (v : Option Value) (old : A)
      → (assign convert same v old).1 ≡ false
      → (assign convert same v old).0 ≡ old
  unfolding assign
  assign-kept none old h = refl
  assign-kept (some v) old h = ground arith

  assign_pointer-kept :
      (v : Option Value) (old : Option A)
      → (assign_pointer convert same v old).1 ≡ false
      → (assign_pointer convert same v old).0 ≡ old
  unfolding assign_pointer
  assign_pointer-kept none old h = refl
  assign_pointer-kept (some v) old h = ground arith

module _ (a b : Bool) where
  before : (a || b) ≡ false → a ≡ false
  before h = ground arith

  last : (a || b) ≡ false → b ≡ false
  last h = ground arith

module _ (parse : String → Option Time) (changes : Fields) (o : Order) where
  -- When the update reports no change, the entity is as it was, in every field.
  pub patched-unchanged : has_changes parse changes o ≡ false → patched parse changes o ≡ o
  unfolding patched has_changes
  patched-unchanged h =
      let h22 = before _ _ h in
      let h21 = before _ _ h22 in
      let h20 = before _ _ h21 in
      let h19 = before _ _ h20 in
      let h18 = before _ _ h19 in
      let h17 = before _ _ h18 in
      let h16 = before _ _ h17 in
      let h15 = before _ _ h16 in
      let h14 = before _ _ h15 in
      let h13 = before _ _ h14 in
      let h12 = before _ _ h13 in
      let h11 = before _ _ h12 in
      let h10 = before _ _ h11 in
      let h9 = before _ _ h10 in
      let h8 = before _ _ h9 in
      let h7 = before _ _ h8 in
      let h6 = before _ _ h7 in
      let h5 = before _ _ h6 in
      let h4 = before _ _ h5 in
      let h3 = before _ _ h4 in
      let h2 = before _ _ h3 in
      let h1 = before _ _ h2 in
      λ i. record {
        id = assign-kept to_number ◌==◌ (lookup "id" changes) o.id h1 i;
        name = assign-kept to_text str_eq (lookup "name" changes) o.name (last _ _ h2) i;
        department_id =
            assign_pointer-kept to_number ◌==◌ (lookup "department_id" changes) o.department_id
              (last _ _ h3) i;
        status_id =
            assign-kept to_number ◌==◌ (lookup "status_id" changes) o.status_id (last _ _ h4) i;
        creator_id =
            assign-kept to_number ◌==◌ (lookup "user_id" changes) o.creator_id (last _ _ h5) i;
        order_type_id =
            assign_pointer-kept to_number ◌==◌ (lookup "order_type_id" changes) o.order_type_id
              (last _ _ h6) i;
        otdel_id =
            assign_pointer-kept to_number ◌==◌ (lookup "otdel_id" changes) o.otdel_id (last _ _ h7)
              i;
        priority_id =
            assign_pointer-kept to_number ◌==◌ (lookup "priority_id" changes) o.priority_id
              (last _ _ h8) i;
        branch_id =
            assign_pointer-kept to_number ◌==◌ (lookup "branch_id" changes) o.branch_id
              (last _ _ h9) i;
        office_id =
            assign_pointer-kept to_number ◌==◌ (lookup "office_id" changes) o.office_id
              (last _ _ h10) i;
        equipment_id =
            assign_pointer-kept to_number ◌==◌ (lookup "equipment_id" changes) o.equipment_id
              (last _ _ h11) i;
        equipment_type_id =
            assign_pointer-kept to_number ◌==◌ (lookup "equipment_type_id" changes)
              o.equipment_type_id (last _ _ h12) i;
        executor_id =
            assign_pointer-kept to_number ◌==◌ (lookup "executor_id" changes) o.executor_id
              (last _ _ h13) i;
        duration =
            assign_pointer-kept (to_time parse) time_same (lookup "duration" changes) o.duration
              (last _ _ h14) i;
        address =
            assign_pointer-kept to_text str_eq (lookup "address" changes) o.address (last _ _ h15)
              i;
        created_at =
            assign-kept (to_time parse) time_same (lookup "created_at" changes) o.created_at
              (last _ _ h16) i;
        updated_at =
            assign-kept (to_time parse) time_same (lookup "updated_at" changes) o.updated_at
              (last _ _ h17) i;
        deleted_at = o.deleted_at;
        completed_at =
            assign_pointer-kept (to_time parse) time_same (lookup "completed_at" changes)
              o.completed_at (last _ _ h18) i;
        first_response_time_seconds =
            assign_pointer-kept to_number ◌==◌ (lookup "first_response_time_seconds" changes)
              o.first_response_time_seconds (last _ _ h19) i;
        resolution_time_seconds =
            assign_pointer-kept to_number ◌==◌ (lookup "resolution_time_seconds" changes)
              o.resolution_time_seconds (last _ _ h20) i;
        is_first_contact_resolution =
            assign_pointer-kept to_flag bool_eq (lookup "is_first_contact_resolution" changes)
              o.is_first_contact_resolution (last _ _ h21) i;
        creator_name =
            assign-kept to_text str_eq (lookup "creator_name" changes) o.creator_name (last _ _ h22)
              i;
        executor_name =
            assign_pointer-kept to_text str_eq (lookup "executor_name" changes) o.executor_name
              (last _ _ h) i;
      }
