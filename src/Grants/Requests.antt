-- ===== src/Grants/Requests.antt =====
-- Requests one after another: readings, changes of a user's permissions, changes and deletions of a
-- role, as the services of internal/services answer them.
use request_system.Common.{ℕ, String, Option, none, some, List, [], ◌≡◌, refl, ap, subst}
use request_system.Errors.{ok}
use request_system.Grants.{
  Tables, State, cache_del, find_users, World, names_of, user_ids_of_role, del,
  get_all_user_permissions,
}
use request_system.Grants.Users.{update_user_permissions}
use request_system.Grants.Roles.{
  CreateRoleDto, create_role, Caller, UpdateRoleDto, update_role, delete_role,
}
use request_system.Grants.Coherence.{
  Coherent, Fewer-Coherent, deleted-Fewer, get_all_user_permissions-Reads,
  update_user_permissions-Coherent,
}
use request_system.Grants.Changes.{update_role-Coherent, delete_role-Coherent, create_role-Coherent}

-- The cache deletes what it is told to, and the holders of a role can be listed.
abbrev pub Working : World → Type 0
Working w = (w.fault cache_del ≡ none) × (w.fault find_users ≡ none)

-- What a request may do here, from its beginning to its end, each with its own faults. Where a role is
-- made, changed or deleted, the world works in these two points; nobody has a role before it is made.
pub data Step : State → State → Type 0 where
  read_permissions_of : (w : World) (s : State) (u : ℕ) → Step s (get_all_user_permissions w u s).1
  changed_user :
      (w : World) (s : State) (caller : List String) (u : ℕ) (has_access no_access : List ℕ)
      → Step s (update_user_permissions w caller u has_access no_access s).1
  changed_role :
      (w : World) (s : State) (caller : Caller) (id : ℕ) (dto : UpdateRoleDto)
      → Working w
      → Step s (update_role w caller id dto s).1
  deleted_role :
      (w : World) (s : State) (caller : Caller) (id : ℕ)
      → Working w
      → Step s (delete_role w caller id s).1
  created_role :
      (w : World) (s : State) (id : ℕ) (caller : Caller) (dto : CreateRoleDto)
      → Working w
      → user_ids_of_role s.db id ≡ []
      → Step s (create_role w id caller dto s).1
  expired : (s : State) (u : ℕ) → Step s (record s { cache = del u s.cache })

pub data Reachable (db : Tables) : State → Type 0 where
  start : Reachable db (record { db = db; cache = [] })
  then_step : {s t : State} → Reachable db s → Step s t → Reachable db t

Step-Coherent : {s t : State} → Step s t → Coherent s → Coherent t
Step-Coherent (read_permissions_of w s u) c = (get_all_user_permissions-Reads w u s c).0
Step-Coherent (changed_user w s caller u has_access no_access) c =
    update_user_permissions-Coherent w caller u has_access no_access s c
Step-Coherent (changed_role w s caller id dto works) c =
    update_role-Coherent w works.0 works.1 caller id dto s c
Step-Coherent (deleted_role w s caller id works) c =
    delete_role-Coherent w works.0 works.1 caller id s c
Step-Coherent (created_role w s id caller dto works unheld) c =
    create_role-Coherent w works.0 works.1 id caller dto s unheld c
Step-Coherent (expired s u) c =
    Fewer-Coherent s (record s { cache = del u s.cache }) (deleted-Fewer u s) refl c

pub reached : (db : Tables) (s : State) → Reachable db s → Coherent s
reached db s start =
    λ u names h. (let g : ◌≡◌ {A = Option (List String)} none (some names) = h in cc)
reached db s (then_step r step) = Step-Coherent step (reached db _ r)

-- As long as requests follow one another, and the cache deletes and the holders of a role can be
-- listed whenever a role is made, changed or deleted, whatever else fails: in each state that is
-- reached from an empty cache by readings, changes of a user's permissions, new, changed and deleted
-- roles and expiring entries, a user who is asked for has exactly the permissions that the tables
-- give, and the cache goes on to hold what the tables give.
pub get_all_user_permissions_coherent :
    (w : World) (db : Tables) (s s' : State) (u : ℕ) (names : List String)
    → Reachable db s
    → get_all_user_permissions w u s ≡ (ok names, s')
    → (names ≡ names_of s.db u) × Coherent s'
get_all_user_permissions_coherent w db s s' u names r h =
    let (c, right) = get_all_user_permissions-Reads w u s (reached db s r) in
    (right names (ap (λ r. r.0) h), subst Coherent (ap (λ r. r.1) h) c)
