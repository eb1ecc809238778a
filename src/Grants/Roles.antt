-- ===== src/Grants/Roles.antt =====
-- internal/services/role.go over internal/repositories/role-repository.go: a role and its
-- permissions are changed, and a role is deleted with its links (ON DELETE CASCADE).
use request_system.Common.{
  ℕ, String, Bool, true, false, not, Option, none, some, List, [], ◌∷◌, ◌++◌, map, if◌then◌else◌,
  ◌==◌, find, select, has_key, is_empty,
}
use request_system.Errors.{Result, ok, err, err_forbidden, err_user_not_found, err_not_found}
use request_system.Grants.{
  Role, Tables, read_role, update_row, unlink_all, link_all, delete_row, read_status, insert_role,
  World, M, ◌>>=◌, ◌>>◌, answer, call, on_db, transaction, invalidate_affected_users_cache,
}

-- What the request says of who asks.
pub record Caller : Type 0 where
  pub user_id : Option ℕ
  pub permissions : Option (List String)

-- `UpdateRoleDTO`.
pub record UpdateRoleDto : Type 0 where
  pub name : String
  pub description : Option String
  pub status_id : Option ℕ
  pub permission_ids : Option (List ℕ)

-- `CreateRoleDTO`.
pub record CreateRoleDto : Type 0 where
  pub name : String
  pub description : String
  pub status_id : Option ℕ
  pub permission_ids : List ℕ

abbrev or_else {ℓ} : {A : Type ℓ} → Option A → A → A
or_else none a = a
or_else (some b) a = b

abbrev pub patched_role : UpdateRoleDto → Role → Role
patched_role dto r = record r {
  name = if is_empty dto.name then r.name else dto.name;
  description = or_else dto.description r.description;
  status_id = or_else dto.status_id r.status_id;
}

-- UPDATE roles SET … WHERE id = $4
abbrev pub set_role : Role → Tables → Tables
set_role r db = record db { roles = map (λ (q : Role). if q.id == r.id then r else q) db.roles }

-- INSERT INTO roles
abbrev pub insert_row : Role → Tables → Tables
insert_row r db = record db { roles = db.roles ++ (r ∷ []) }

abbrev pub unlink_permissions : ℕ → Tables → Tables
unlink_permissions role db = record db {
  role_permissions = select (λ l. not (l.0 == role)) db.role_permissions;
}

abbrev pub link_permissions : ℕ → List ℕ → Tables → Tables
link_permissions role ids db = record db {
  role_permissions = db.role_permissions ++ map (λ id. (role, id)) ids;
}

abbrev pub without_role : ℕ → Tables → Tables
without_role role db = record db {
  roles = select (λ (q : Role). not (q.id == role)) db.roles;
  role_permissions = select (λ l. not (l.0 == role)) db.role_permissions;
  user_roles = select (λ l. not (l.1 == role)) db.user_roles;
}

abbrev found_role : Option Role → Result Role
found_role none = err err_not_found
found_role (some r) = ok r

abbrev role_links : ℕ → Tables → List ℕ
role_links role db = map (λ (l : ℕ × ℕ). l.1) (select (λ l. l.0 == role) db.role_permissions)

module _ (w : World) where
  -- `FindRoleByID`, the row alone.
  abbrev pub find_role_by_id : ℕ → M Role
  find_role_by_id id = call w read_role (λ s. s) >> λ s.
      answer (found_role (find (λ (r : Role). r.id == id) s.db.roles)) s

  abbrev known : List String → Bool → Result (List String)
  known permissions true = ok permissions
  known permissions false = err err_user_not_found

  abbrev pub context_of : Option ℕ → Option (List String) → Result (List String)
  context_of none permissions = err err_user_not_found
  context_of (some u) none = err err_forbidden
  context_of (some u) (some permissions) = known permissions (w.is_user u)

  -- `buildAuthzContext` and the question that each operation asks with it. There is no target, so
  -- that the engine looks for the permission alone.
  abbrev pub checked : Bool → Result (Unit {0})
  checked true = ok tt
  checked false = err err_forbidden

  unfoldable pub check_access : Caller → String → M (Unit {0})
  unfolding ◌>>=◌
  check_access caller permission =
      answer (context_of caller.user_id caller.permissions) >>= λ permissions.
      answer (checked (has_key permission permissions))

  abbrev pub link_if_any : ℕ → List ℕ → M (Unit {0})
  link_if_any role [] = answer (ok tt)
  link_if_any role (id ∷ ids) = call w link_all (on_db (link_permissions role (id ∷ ids)))

  abbrev pub relink : ℕ → Option (List ℕ) → M (Unit {0})
  relink role none = answer (ok tt)
  relink role (some ids) =
      call w unlink_all (on_db (unlink_permissions role)) >> link_if_any role ids

  -- What `UpdateRole` does between its BeginTx and its Commit.
  abbrev pub write_role : ℕ → UpdateRoleDto → M (Unit {0})
  write_role id dto =
      transaction w (λ e. e)
        (find_role_by_id id >>= λ r.
          call w update_row (on_db (set_role (patched_role dto r))) >> relink id dto.permission_ids)

  -- `FindRole`.
  unfoldable pub find_role : Caller → ℕ → M (Role × List ℕ)
  unfolding check_access ◌>>=◌ call
  find_role caller id = check_access caller "role:view" >> find_role_by_id id >>= λ r s.
      answer (ok (r, role_links id s.db)) s

  abbrev pub status_or_active : Option ℕ → M ℕ
  status_or_active (some id) = answer (ok id)
  status_or_active none = call w read_status (λ s. s) >> answer (ok w.active_status)

  -- What `CreateRole` does between its BeginTx and its Commit; `id` is what the sequence gives.
  abbrev pub new_role : ℕ → CreateRoleDto → M (Unit {0})
  new_role id dto =
      transaction w (λ e. e)
        (status_or_active dto.status_id >>= λ status.
          call w insert_role (
            on_db (
              insert_row record {
                id = id;
                name = dto.name;
                description = dto.description;
                status_id = status;
              }))
          >> link_if_any id dto.permission_ids)

  -- `CreateRole`.
  unfoldable pub create_role : ℕ → Caller → CreateRoleDto → M (Role × List ℕ)
  unfolding check_access transaction call ◌>>=◌ find_role
  create_role id caller dto =
      check_access caller "role:create" >> new_role id dto >> find_role caller id

  -- Before its transaction `UpdateRole` drops what the cache holds for the holders of the role.
  abbrev pub start_update_role : Caller → ℕ → M (Unit {0})
  start_update_role caller id =
      check_access caller "role:update" >> invalidate_affected_users_cache w id

  -- `UpdateRole`.
  unfoldable pub update_role : Caller → ℕ → UpdateRoleDto → M (Role × List ℕ)
  unfolding check_access invalidate_affected_users_cache transaction call ◌>>=◌ find_role
  update_role caller id dto =
      start_update_role caller id >> write_role id dto >> find_role caller id

  abbrev pub rows_affected : ℕ → Option Role → M (Unit {0})
  rows_affected id none s = (err err_not_found, s)
  rows_affected id (some r) s = (ok tt, on_db (without_role id) s)

  -- DELETE FROM roles WHERE id = $1
  abbrev pub delete_row_of : ℕ → M (Unit {0})
  delete_row_of id = call w delete_row (λ s. s) >> λ s.
      rows_affected id (find (λ (r : Role). r.id == id) s.db.roles) s

  -- Before the row `DeleteRole` drops the entries of the cache.
  abbrev pub start_delete_role : Caller → ℕ → M (Unit {0})
  start_delete_role caller id =
      check_access caller "role:delete" >> invalidate_affected_users_cache w id

  -- `DeleteRole`.
  unfoldable pub delete_role : Caller → ℕ → M (Unit {0})
  unfolding check_access invalidate_affected_users_cache call ◌>>=◌
  delete_role caller id = start_delete_role caller id >> delete_row_of id
