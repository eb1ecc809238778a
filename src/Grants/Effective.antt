-- ===== src/Grants/Effective.antt =====
-- What a change of a user's permissions comes to.
use request_system.Common.{
  ℕ, String, Bool, true, false, not, Option, none, some, List, select, if◌then◌else◌, ◌==◌, ◌≡◌,
  refl, sym, ◌∙◌, ap, subst, arith, has_key,
}
use request_system.Errors.{Error, http, Result, ok, err, err_forbidden, wrap_db_error}
use request_system.Grants.{
  State, read_role_permissions, World, answer, mem, on_db, role_grants, allowed, sync_user_links,
  get, del, invalidate_user_permissions_cache,
}
use request_system.Grants.Users.{
  users_update, write_permissions, with_base, base_read, update_user_permissions,
}
use request_system.Grants.Runs.{
  >>=-ok, call-ok, transaction-ok, transaction-err, mem-select, has_link-sync_user_links, get-del,
}

-- The state with one user's links replaced and the entry of the cache dropped.
abbrev pub rewritten : ℕ → List ℕ → List ℕ → State → State
rewritten u add deny s = record {
  db = record (s.db) {
    user_permissions = sync_user_links u add s.db.user_permissions;
    denials = sync_user_links u deny s.db.denials;
  };
  cache = del u s.cache;
}

module _ (w : World) (u : ℕ) where
  write_permissions-ok :
      (add deny : List ℕ) (s s' : State)
      → write_permissions w u add deny s ≡ (ok tt, s')
      → s' ≡ rewritten u add deny s
  unfolding invalidate_user_permissions_cache
  write_permissions-ok add deny s s' h =
      let (a, s1, e1, r1) = >>=-ok _ _ s s' tt h in
      let (b, s2, e2, r2) = >>=-ok _ _ s s1 a e1 in
      let f1 = call-ok w _ _ s s2 b e2 in
      let f2 = call-ok w _ _ s2 s1 a r2 in
      let f3 = call-ok w _ _ s1 s' tt r1 in
      f3
      ∙ ap (λ (t : State). record t { cache = del u t.cache })
          (f2 ∙ ap (on_db λ db. record db { denials = sync_user_links u deny db.denials }) f1)

  -- The rights of one user, from the two lists of a request and what the roles give.
  abbrev asked : State → List ℕ → List ℕ → ℕ → Bool
  asked s has_access no_access id =
      if role_grants s.db u id then not (mem id no_access) else mem id has_access

  allowed-rewritten :
      (s : State) (has_access no_access : List ℕ) (n id : ℕ)
      → let add = select (λ i. not (role_grants s.db u i)) has_access in
        let deny = select (role_grants s.db u) no_access in
        allowed (rewritten u add deny s).db n id
        ≡ (if n == u then asked s has_access no_access id else allowed s.db n id)
  allowed-rewritten s has_access no_access n id =
      let base = role_grants s.db u in
      ground (
        arith,
        has_link-sync_user_links n id u (select (λ i. not (base i)) has_access)
            s.db.user_permissions,
        has_link-sync_user_links n id u (select base no_access) s.db.denials,
        mem-select (λ i. not (base i)) id has_access,
        mem-select base id no_access,
      )

  abbrev pub Granted : List ℕ → List ℕ → State → State → Type 0
  Granted has_access no_access s s' =
      ((n id : ℕ)
        → allowed s'.db n id
          ≡ (if n == u then asked s has_access no_access id else allowed s.db n id))
      × ((n : ℕ) → get n s'.cache ≡ (if n == u then none else get n s.cache))

  granted :
      (has_access no_access : List ℕ) (s s' : State)
      → s'
        ≡ rewritten u
            (select (λ i. not (role_grants s.db u i)) has_access)
            (select (role_grants s.db u) no_access)
            s
      → Granted has_access no_access s s'
  granted has_access no_access s s' e =
      subst (Granted has_access no_access s) (sym e)
        (allowed-rewritten s has_access no_access, λ n. get-del n u s.cache)

  pub with_base-eq :
      (has_access no_access : List ℕ) (s s' : State)
      → with_base w u has_access no_access s ≡ (ok tt, s')
      → s'
        ≡ rewritten u
            (select (λ i. not (role_grants s.db u i)) has_access)
            (select (role_grants s.db u) no_access)
            s
  with_base-eq has_access no_access s s' h =
      write_permissions-ok _ _ s s' (transaction-ok w wrap_db_error _ s s' tt h)

  with_base-ok :
      (has_access no_access : List ℕ) (s s' : State)
      → with_base w u has_access no_access s ≡ (ok tt, s')
      → Granted has_access no_access s s'
  with_base-ok has_access no_access s s' h =
      granted has_access no_access s s' (with_base-eq has_access no_access s s' h)

  base_read-ok :
      (fault : Option Error) (has_access no_access : List ℕ) (s s' : State)
      → base_read w fault u has_access no_access s ≡ (ok tt, s')
      → Granted has_access no_access s s'
  base_read-ok none has_access no_access s s' h = with_base-ok has_access no_access s s' h
  base_read-ok (some e) has_access no_access s s' h =
      let f : ◌≡◌ {A = Result (Unit {0})} (err (http 500 "Ошибка получения прав ролей")) (ok tt) =
        ap (λ r. r.0) h in
      cc

  base_read-err :
      (fault : Option Error) (has_access no_access : List ℕ) (s s' : State) (x : Error)
      → base_read w fault u has_access no_access s ≡ (err x, s')
      → s'.db ≡ s.db
  base_read-err none has_access no_access s s' x h = (transaction-err w wrap_db_error _ s s' x h).0
  base_read-err (some e) has_access no_access s s' x h = sym (ap (λ r. r.1.db) h)

  gated :
      (may : Bool) (has_access no_access : List ℕ) (s s' : State)
      → ((if may
                then base_read w (w.fault read_role_permissions) u has_access no_access
                else answer (err err_forbidden))
              s
            ≡ (ok tt, s')
          → (may ≡ true) × Granted has_access no_access s s')
        × ((x : Error)
            → (if may
                  then base_read w (w.fault read_role_permissions) u has_access no_access
                  else answer (err err_forbidden))
                s
              ≡ (err x, s')
            → s'.db ≡ s.db)
  gated true has_access no_access s s' = (
    λ h. (refl, base_read-ok (w.fault read_role_permissions) has_access no_access s s' h),
    λ x h. base_read-err (w.fault read_role_permissions) has_access no_access s s' x h,
  )
  gated false has_access no_access s s' = (
    λ h. let f : ◌≡◌ {A = Result (Unit {0})} (err err_forbidden) (ok tt) = ap (λ r. r.0) h in cc,
    λ x h. sym (ap (λ r. r.1.db) h),
  )

  -- A change that succeeds was asked for by a holder of user:update; from then on the user has, among
  -- what the roles give, all but the ids of the second list, and beside it the ids of the first list
  -- and nothing else; the rights of other users stay; and only that user's entry of the cache is
  -- dropped. A change that fails leaves the tables as they were.
  pub update_user_permissions_grants :
      (caller : List String) (has_access no_access : List ℕ) (s s' : State)
      → (update_user_permissions w caller u has_access no_access s ≡ (ok tt, s')
          → (has_key users_update caller ≡ true) × Granted has_access no_access s s')
        × ((x : Error)
            → update_user_permissions w caller u has_access no_access s ≡ (err x, s')
            → s'.db ≡ s.db)
  unfolding update_user_permissions
  update_user_permissions_grants caller has_access no_access s s' =
      gated (has_key users_update caller) has_access no_access s s'
