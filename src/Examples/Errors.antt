-- ===== src/Examples/Errors.antt =====
-- How an error of the database is answered, applied.
use request_system.Common.{
  refl, String, none, some, ◌≡◌, In, true, false, str_eq, codes, codes_eq, has_prefix,
}
use request_system.Errors.{
  PgError, http, driver, Spec, exact_constraint_specs, prefix_constraint_specs, new_db_http_error,
  wrap_db_error,
}
use request_system.Errors.Constraints.{normalized, NoExact, Unknown}
use request_system.Errors.Mapping.{sql_messages, by_text, wrap_db_error_maps}

-- A second role of the same name.
abbrev taken : PgError
taken = record { code = "23505"; constraint_name = " Roles_Name_Key" }

wrap_db_error_maps_example :
    ((e : String × Spec)
      → In e exact_constraint_specs
      → codes_eq (normalized " Roles_Name_Key") (codes e.0) ≡ true
      → wrap_db_error (driver "duplicate key" (some taken)) ≡ new_db_http_error e.1)
    × ((e : String × Spec)
        → NoExact (normalized " Roles_Name_Key")
        → In e prefix_constraint_specs
        → has_prefix (normalized " Roles_Name_Key") (codes e.0) ≡ true
        → wrap_db_error (driver "duplicate key" (some taken)) ≡ new_db_http_error e.1)
    × ((e : String × String)
        → Unknown (normalized " Roles_Name_Key")
        → In e sql_messages
        → str_eq "23505" e.0 ≡ true
        → wrap_db_error (driver "duplicate key" (some taken)) ≡ http 400 e.1)
    × (Unknown (normalized " Roles_Name_Key")
        → ((e : String × String) → In e sql_messages → str_eq "23505" e.0 ≡ false)
        → wrap_db_error (driver "duplicate key" (some taken))
          ≡ by_text "duplicate key" (some taken))
    × (wrap_db_error (driver "duplicate key" none) ≡ by_text "duplicate key" none)
wrap_db_error_maps_example = wrap_db_error_maps "duplicate key" taken

conflicts :
    wrap_db_error (driver "duplicate key" (some taken))
    ≡ http 400 "Роль с таким названием уже существует."
unfolding wrap_db_error request_system.Common.trim_space
conflicts = refl
