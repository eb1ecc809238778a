-- ===== src/Grants/Users.antt =====
-- `UpdateUserPermissions` of internal/services/user-service.go.
use request_system.Common.{ℕ, String, not, Option, none, some, List, if◌then◌else◌, select, has_key}
use request_system.Errors.{Error, http, err, err_forbidden, wrap_db_error}
use request_system.Grants.{
  sync_direct, sync_denied, read_role_permissions, World, M, ◌>>=◌, ◌>>◌, answer, call, on_db,
  transaction, role_grants, sync_user_links, invalidate_user_permissions_cache,
}

abbrev pub users_update : String
users_update = "user:update"

module _ (w : World) where
  abbrev pub sync_user_direct_permissions : ℕ → List ℕ → M (Unit {0})
  sync_user_direct_permissions u ids =
      call w sync_direct
        (on_db λ db. record db { user_permissions = sync_user_links u ids db.user_permissions })

  abbrev pub sync_user_denied_permissions : ℕ → List ℕ → M (Unit {0})
  sync_user_denied_permissions u ids =
      call w sync_denied (on_db λ db. record db { denials = sync_user_links u ids db.denials })

  -- The function of the transaction, which also drops the entry of the cache.
  abbrev pub write_permissions : ℕ → List ℕ → List ℕ → M (Unit {0})
  write_permissions u add deny =
      sync_user_direct_permissions u add
      >> sync_user_denied_permissions u deny
      >> invalidate_user_permissions_cache w u

  abbrev pub with_base : ℕ → List ℕ → List ℕ → M (Unit {0})
  with_base u has_access no_access s =
      transaction w wrap_db_error
        (write_permissions u (select (λ id. not (role_grants s.db u id)) has_access)
          (select (role_grants s.db u) no_access))
        s

  abbrev pub base_read : Option Error → ℕ → List ℕ → List ℕ → M (Unit {0})
  base_read (some e) u has_access no_access = answer (err (http 500 "Ошибка получения прав ролей"))
  base_read none u has_access no_access = with_base u has_access no_access

  -- `UpdateUserPermissions`. Without a target the engine asks for the permission alone.
  unfoldable pub update_user_permissions : List String → ℕ → List ℕ → List ℕ → M (Unit {0})
  unfolding ◌>>=◌ call transaction invalidate_user_permissions_cache
  update_user_permissions caller u has_access no_access =
      if has_key users_update caller
      then base_read (w.fault read_role_permissions) u has_access no_access
      else answer (err err_forbidden)
