-- ===== src/Grants/Stale.antt =====
-- What the cache of a holder of a role is left with where a request of the holder comes between
-- the two parts of `UpdateRole` or `DeleteRole` (internal/services/role.go).
use request_system.Common.{
  ℕ, String, true, Option, none, some, List, ◌∷◌, if◌then◌else◌, ◌≡◌, sym, ◌∙◌, ap, arith,
}
use request_system.Errors.{Error, Result, ok}
use request_system.Grants.{
  M, ◌>>◌, State, cache_get, cache_set, cache_del, find_users, read_permissions, World, mem,
  names_of, user_ids_of_role, get, seen, kept_names, loaded, looked_up, get_all_user_permissions,
  invalidate_affected_users_cache,
}
use request_system.Grants.Roles.{
  Caller, UpdateRoleDto, check_access, write_role, start_update_role, start_delete_role,
  delete_row_of,
}
use request_system.Grants.Runs.{>>=-ok}
use request_system.Grants.Quiet.{IsQuiet, write_role-IsQuiet, delete_row_of-IsQuiet}
use request_system.Grants.Changes.{all_cleared, check_access-stays}

module _ (w : World) where
  -- With an answering cache, a reading takes what is there.
  kept :
      (gets : w.fault cache_get ≡ none) (u : ℕ) (names : List String) (s : State)
      → get u s.cache ≡ some names
      → get_all_user_permissions w u s ≡ (ok names, s)
  unfolding get_all_user_permissions
  kept gets u names s h =
      ap (λ fault. looked_up w u (seen fault (get u s.cache)) s) gets
      ∙ ap (λ found. looked_up w u found s) h

  -- With an answering cache that has no entry, a reading stores what the tables give.
  missed :
      (gets : w.fault cache_get ≡ none) (reads : w.fault read_permissions ≡ none)
      (sets : w.fault cache_set ≡ none) (u : ℕ) (s : State)
      → get u s.cache ≡ none
      → get_all_user_permissions w u s
        ≡ (ok (names_of s.db u), record s { cache = (u, names_of s.db u) ∷ s.cache })
  unfolding get_all_user_permissions
  missed gets reads sets u s h =
      ap (λ fault. looked_up w u (seen fault (get u s.cache)) s) gets
      ∙ ap (λ found. looked_up w u found s) h
      ∙ ap (λ fault. loaded w u fault s) reads
      ∙ (let after : Option Error → Result (List String) × State =
            λ fault. (ok (names_of s.db u), kept_names w u (names_of s.db u) fault s) in
          ap after sets)

  module _ (cache_del_works : w.fault cache_del ≡ none) (found : w.fault find_users ≡ none)
      (gets : w.fault cache_get ≡ none) (reads : w.fault read_permissions ≡ none)
      (sets : w.fault cache_set ≡ none) where
    -- What a reading stores between the dropped entries and a change, the next reading gives.
    stale :
        (permission : String) (change : M (Unit {0})) (caller : Caller) (id u : ℕ) (s s1 : State)
        → IsQuiet id change
        → mem u (user_ids_of_role s.db id) ≡ true
        → (check_access w caller permission >> invalidate_affected_users_cache w id) s ≡ (ok tt, s1)
        → let s2 = (get_all_user_permissions w u s1).1 in
          (get_all_user_permissions w u (change s2).1).0 ≡ ok (names_of s.db u)
    stale permission change caller id u s s1 quiet held started =
        let (x, s0, may, dropped) = >>=-ok _ _ s s1 tt started in
        let stays : s0 ≡ s =
          ap (λ r. r.1)
            (sym may ∙ check_access-stays w cache_del_works found caller permission s) in
        let run : invalidate_affected_users_cache w id s ≡ (ok tt, s1) =
          ap (invalidate_affected_users_cache w id) (sym stays) ∙ dropped in
        let (same, done, gone) = all_cleared w cache_del_works found id s in
        let after : (s1.db ≡ s.db) × (get u s1.cache ≡ none) = (
          ap (λ r. r.1.db) (sym run) ∙ same,
          ap (λ r. get u r.1.cache) (sym run)
              ∙ gone u
              ∙ ap (λ b. if b then none else get u s.cache) held,
        ) in
        let first = missed gets reads sets u s1 after.1 in
        let s2 = (get_all_user_permissions w u s1).1 in
        let there : get u s2.cache ≡ some (names_of s1.db u) =
          ap (λ r. get u r.1.cache) first ∙ ground arith in
        let still : get u (change s2).1.cache ≡ some (names_of s1.db u) =
          ap (get u) (quiet.at s2).0 ∙ there in
        ap (λ r. r.0) (kept gets u (names_of s1.db u) (change s2).1 still)
        ∙ ap (λ db. ok (names_of db u)) after.0

    -- Where a holder of a role makes a request after `UpdateRole` or `DeleteRole` has dropped the
    -- entries of the cache and before it has written its change, and neither the cache nor the tables
    -- refuse a reading, the next request of the holder is answered by the permissions from before the
    -- change.
    pub role_change_stale :
        (caller : Caller) (id : ℕ) (dto : UpdateRoleDto) (u : ℕ) (s s1 : State)
        → mem u (user_ids_of_role s.db id) ≡ true
        → let s2 = (get_all_user_permissions w u s1).1 in
          (start_update_role w caller id s ≡ (ok tt, s1)
            → (get_all_user_permissions w u (write_role w id dto s2).1).0 ≡ ok (names_of s.db u))
          × (start_delete_role w caller id s ≡ (ok tt, s1)
              → (get_all_user_permissions w u (delete_row_of w id s2).1).0 ≡ ok (names_of s.db u))
    role_change_stale caller id dto u s s1 held = (
      stale "role:update" (write_role w id dto) caller id u s s1 (write_role-IsQuiet id w dto) held,
      stale "role:delete" (delete_row_of w id) caller id u s s1 (delete_row_of-IsQuiet id w) held,
    )
