-- ===== src/Grants.antt =====
-- Which permissions a user has: the tables of internal/repositories/permission-repository.go, the
-- links of user-repository.go, and the cache of internal/services/auth_permission_service.go.
pub mod Roles
pub mod Users
pub mod Gate
pub mod Admission
pub mod Routes
pub mod Tokens
pub mod Runs
pub mod Quiet
pub mod Effective
pub mod Coherence
pub mod Changes
pub mod Requests
pub mod Stale
use request_system.Common.{
  ℕ, String, Bool, true, false, ◌&&◌, ◌||◌, not, Option, none, some, List, [], ◌∷◌, ◌++◌, map,
  if◌then◌else◌, ◌==◌, any, select,
}
use request_system.Errors.{Error, Result, ok, err, err_internal_server, wrap_db_error}

pub record Role : Type 0 where
  pub id : ℕ
  pub name : String
  pub description : String
  pub status_id : ℕ

-- The tables. A link is a pair of ids.
pub record Tables : Type 0 where
  pub permissions : List (ℕ × String)
  pub roles : List Role
  pub role_permissions : List (ℕ × ℕ)
  pub user_roles : List (ℕ × ℕ)
  pub user_permissions : List (ℕ × ℕ)
  pub denials : List (ℕ × ℕ)

-- The entries of the cache under `auth:permissions:user:%d`, decoded.
abbrev pub Cache : Type 0
Cache = List (ℕ × List String)

pub record State : Type 0 where
  pub db : Tables
  pub cache : Cache

-- The calls that may fail.
pub data Call : Type 0 where
  begin_tx commit_tx read_permissions read_role_permissions read_role find_users : Call
  sync_direct sync_denied update_row unlink_all link_all delete_row : Call
  read_status insert_role : Call
  cache_get cache_set cache_del : Call

pub record World : Type 0 where
  pub fault : Call → Option Error
  pub is_user : ℕ → Bool
  pub active_status : ℕ

abbrev pub M : Type 0 → Type 0
M A = State → Result A × State

abbrev pub continue : {A B : Type 0} → Result A → (A → M B) → M B
continue (ok a) f s = f a s
continue (err e) f s = (err e, s)

infixl 5 ◌>>=◌ ◌>>◌
unfoldable pub ◌>>=◌ : {A B : Type 0} → M A → (A → M B) → M B
◌>>=◌ m f s = let (r, s') = m s in continue r f s'

abbrev pub ◌>>◌ : {A B : Type 0} → M A → M B → M B
m >> k = m >>= λ _. k

abbrev pub answer : {A : Type 0} → Result A → M A
answer r s = (r, s)

-- Whatever comes of it, go on.
abbrev pub ignoring : {A : Type 0} → M A → M (Unit {0})
ignoring m s = (ok tt, (m s).1)

abbrev pub call_result : Option Error → (State → State) → M (Unit {0})
call_result none f s = (ok tt, f s)
call_result (some e) f s = (err e, s)

-- A call fails, or changes the state.
unfoldable pub call : World → Call → (State → State) → M (Unit {0})
call w c f = call_result (w.fault c) f

abbrev pub on_db : (Tables → Tables) → State → State
on_db f s = record s { db = f s.db }

abbrev pub committed : {A : Type 0} → Tables → A → Option Error → State → Result A × State
committed before a none s = (ok a, s)
committed before a (some e) s = (err e, record s { db = before })

abbrev pub closed :
    {A : Type 0} → World → (Error → Error) → Tables → Result A → State → Result A × State
closed w wrap before (ok a) s = committed before a (w.fault commit_tx) s
closed w wrap before (err e) s = (err (wrap e), record s { db = before })

abbrev pub opened : {A : Type 0} → World → (Error → Error) → Option Error → M A → M A
opened w wrap (some e) body s = (err e, s)
opened w wrap none body s = let (r, s') = body s in closed w wrap s.db r s'

-- A transaction, which a failure rolls back. `RunInTransaction` passes an error of its function
-- through WrapDBError; the role service opens its transactions itself and does not.
unfoldable pub transaction : {A : Type 0} → World → (Error → Error) → M A → M A
transaction w wrap body = opened w wrap (w.fault begin_tx) body

abbrev pub mem : ℕ → List ℕ → Bool
mem n = any λ m. m == n

abbrev pub has_link : ℕ → ℕ → List (ℕ × ℕ) → Bool
has_link a b = any λ l. l.0 == a && l.1 == b

-- `GetRolePermissionIDsForUser`, as the set that its caller makes of it.
abbrev pub role_grants : Tables → ℕ → ℕ → Bool
role_grants db u id = any (λ l. l.0 == u && has_link l.1 id db.role_permissions) db.user_roles

-- The condition of `GetFinalUserPermissionIDs`.
abbrev pub allowed : Tables → ℕ → ℕ → Bool
allowed db u id =
    (has_link u id db.user_permissions || role_grants db u id) && not (has_link u id db.denials)

abbrev names_where : List (ℕ × String) → (ℕ → Bool) → List String
names_where permissions p =
    let ids = select p (map (λ (r : ℕ × String). r.0) permissions) in
    map (λ (r : ℕ × String). r.1) (select (λ r. mem r.0 ids) permissions)

-- `GetAllUserPermissionsNames`.
unfoldable pub names_of : Tables → ℕ → List String
names_of db u = names_where db.permissions (allowed db u)

-- `FindUserIDsByRoleID`.
abbrev pub user_ids_of_role : Tables → ℕ → List ℕ
user_ids_of_role db role = map (λ (l : ℕ × ℕ). l.0) (select (λ l. l.1 == role) db.user_roles)

abbrev pub get : ℕ → Cache → Option (List String)
get u [] = none
get u ((v, names) ∷ c) = let rest = get u c in if v == u then some names else rest

abbrev pub del : ℕ → Cache → Cache
del u = select λ e. not (e.0 == u)

abbrev pub seen : Option Error → Option (List String) → Option (List String)
seen none found = found
seen (some e) found = none

-- `syncUserLinks`.
abbrev pub sync_user_links : ℕ → List ℕ → List (ℕ × ℕ) → List (ℕ × ℕ)
sync_user_links u ids links = select (λ l. not (l.0 == u)) links ++ map (λ id. (u, id)) ids

module _ (w : World) where
  abbrev pub kept_names : ℕ → List String → Option Error → State → State
  kept_names u names none s = record s { cache = (u, names) ∷ s.cache }
  kept_names u names (some e) s = s

  abbrev pub loaded : ℕ → Option Error → M (List String)
  loaded u (some e) s = (err err_internal_server, s)
  loaded u none s = (ok (names_of s.db u), kept_names u (names_of s.db u) (w.fault cache_set) s)

  abbrev pub looked_up : ℕ → Option (List String) → M (List String)
  looked_up u (some names) s = (ok names, s)
  looked_up u none s = loaded u (w.fault read_permissions) s

  -- `GetAllUserPermissions`.
  unfoldable pub get_all_user_permissions : ℕ → M (List String)
  unfolding names_of
  get_all_user_permissions u s = looked_up u (seen (w.fault cache_get) (get u s.cache)) s

  -- `InvalidateUserPermissionsCache`.
  unfoldable pub invalidate_user_permissions_cache : ℕ → M (Unit {0})
  unfolding call
  invalidate_user_permissions_cache u = call w cache_del λ s. record s { cache = del u s.cache }

  abbrev pub each_invalidated : List ℕ → M (Unit {0})
  each_invalidated [] s = (ok tt, s)
  each_invalidated (u ∷ us) s = each_invalidated us (invalidate_user_permissions_cache u s).1

  abbrev pub users_invalidated : Option Error → List ℕ → M (Unit {0})
  users_invalidated (some e) us s = (ok tt, s)
  users_invalidated none us s = each_invalidated us s

  -- `invalidateAffectedUsersCache`, of both role services: every error is only logged.
  unfoldable pub invalidate_affected_users_cache : ℕ → M (Unit {0})
  unfolding invalidate_user_permissions_cache
  invalidate_affected_users_cache role s =
      users_invalidated (w.fault find_users) (user_ids_of_role s.db role) s
