-- ===== src/Grants/Changes.antt =====
-- What changes of a role, as internal/services/role.go makes them, do to the cache.
use request_system.Common.{
  ℕ, String, false, Option, none, some, List, [], ◌∷◌, has_key, if◌then◌else◌, ◌≡◌, refl, sym, ◌∙◌,
  ap, subst, arith, Bool-cases, inl, inr,
}
use request_system.Errors.{Error, Result, ok, err}
use request_system.Grants.{
  State, Call, cache_del, find_users, World, M, continue, ◌>>=◌, ◌>>◌, answer, call, call_result,
  mem, names_of, user_ids_of_role, get, del, invalidate_user_permissions_cache, each_invalidated,
  users_invalidated, invalidate_affected_users_cache,
}
use request_system.Grants.Roles.{
  CreateRoleDto, create_role, new_role, Caller, UpdateRoleDto, context_of, checked, check_access,
  write_role, find_role, start_update_role, update_role, delete_row_of, delete_role,
}
use request_system.Grants.Runs.{get-del}
use request_system.Grants.Quiet.{new_role-IsQuiet, Quiet, write_role-IsQuiet, delete_row_of-IsQuiet}
use request_system.Grants.Coherence.{Coherent}

module _ (w : World) where
  module _ (role : ℕ) where
    -- The tables stay, and the entries of those who have the role are gone.
    abbrev Cleared : State → State → Type 0
    Cleared s t =
        (t.db ≡ s.db)
        × ((v : ℕ)
            → get v t.cache ≡ (if mem v (user_ids_of_role s.db role) then none else get v s.cache))

    changed-Coherent : (s t r : State) → Coherent s → Cleared s t → Quiet role t r → Coherent r
    changed-Coherent s t r c (same, gone) (cache, quiet) v names h =
        elim (Bool-cases (mem v (user_ids_of_role s.db role))) [
          | inl e ↦
              let k : get v t.cache ≡ none = ground (arith, gone v) in
              let l : get v t.cache ≡ some names = ap (get v) (sym cache) ∙ h in cc
          | inr e ↦
              let l : get v t.cache ≡ some names = ap (get v) (sym cache) ∙ h in
              let k : get v s.cache ≡ some names = ground (arith, gone v) in
              let o : mem v (user_ids_of_role t.db role) ≡ false =
                ap (λ db. mem v (user_ids_of_role db role)) same ∙ e in
              c v names k ∙ ap (λ db. names_of db v) (sym same) ∙ sym (quiet v o).1
        ]

  module _ (del_works : w.fault cache_del ≡ none) (found : w.fault find_users ≡ none) where
    deletes :
        (u : ℕ) (s : State)
        → invalidate_user_permissions_cache w u s ≡ (ok tt, record s { cache = del u s.cache })
    unfolding invalidate_user_permissions_cache
    deletes u s =
        ap (λ (fault : Option Error). call_result fault (λ t. record t { cache = del u t.cache }) s)
          del_works

    abbrev Dropped : List ℕ → State → Result (Unit {0}) × State → Type 0
    Dropped us s r =
        (r.1.db ≡ s.db)
        × (r.0 ≡ ok tt)
        × ((v : ℕ) → get v r.1.cache ≡ (if mem v us then none else get v s.cache))

    each_cleared : (us : List ℕ) (s : State) → Dropped us s (each_invalidated w us s)
    each_cleared [] s = (refl, refl, λ v. refl)
    each_cleared (u ∷ us) s =
        let t : State = record s { cache = del u s.cache } in
        let (same, done, gone) = each_cleared us t in
        subst (λ (x : State). Dropped (u ∷ us) s (each_invalidated w us x))
          (sym (ap (λ r. r.1) (deletes u s)))
          (same, done, λ v. ground (arith, gone v, get-del v u s.cache))

    pub all_cleared :
        (role : ℕ) (s : State)
        → Dropped (user_ids_of_role s.db role) s (invalidate_affected_users_cache w role s)
    unfolding invalidate_affected_users_cache
    all_cleared role s =
        subst
          (λ fault.
            Dropped (user_ids_of_role s.db role) s
              (users_invalidated w fault (user_ids_of_role s.db role) s))
          (sym found) (each_cleared (user_ids_of_role s.db role) s)

    -- A check, then the entries dropped, then a change that is quiet.
    changed :
        (role : ℕ) (may : Result (Unit {0})) (change : M (Unit {0})) (s : State)
        → ((t : State) → Quiet role t (change t).1)
        → Coherent s
        → Coherent
            (continue
              (continue may (λ _. invalidate_affected_users_cache w role) s).0
              (λ _. change)
              (continue may (λ _. invalidate_affected_users_cache w role) s).1).1
    changed role (err e) change s quiet c = c
    changed role (ok x) change s quiet c =
        let (same, done, gone) = all_cleared role s in
        after (invalidate_affected_users_cache w role s) (same, gone)
      where
        after :
            (r : Result (Unit {0}) × State)
            → Cleared role s r.1
            → Coherent (continue r.0 (λ _. change) r.1).1
        after (ok y, t) k = changed-Coherent role s t _ c k (quiet t)
        after (err e, t) k = changed-Coherent role s t t c k (refl, λ v o. (o, refl))

    pub check_access-stays :
        (caller : Caller) (permission : String) (s : State)
        → check_access w caller permission s ≡ ((check_access w caller permission s).0, s)
    unfolding check_access
    check_access-stays caller permission s = after (context_of w caller.user_id caller.permissions)
      where
        after :
            (r : Result (List String))
            → (answer r >>= λ permissions. answer (checked w (has_key permission permissions))) s
              ≡ (
                ((answer r >>= λ permissions. answer (checked w (has_key permission permissions)))
                    s).0,
                s,
              )
        after (ok permissions) = refl
        after (err e) = refl

    checked_change :
        (caller : Caller) (permission : String) (role : ℕ) (change : M (Unit {0})) (s : State)
        → ((t : State) → Quiet role t (change t).1)
        → Coherent s
        → Coherent
            (((check_access w caller permission >> invalidate_affected_users_cache w role)
                >> change)
              s).1
    unfolding ◌>>=◌
    checked_change caller permission role change s quiet c =
        subst
          (λ (r : Result (Unit {0}) × State).
            Coherent
              (continue (continue r.0 (λ _. invalidate_affected_users_cache w role) r.1).0
                (λ _. change) (continue r.0 (λ _. invalidate_affected_users_cache w role) r.1).1).1)
          (sym (check_access-stays caller permission s))
          (changed role (check_access w caller permission s).0 change s quiet c)

    record IsReading {A : Type 0} (m : M A) : Type 0 where
      pub at : (s : State) → (m s).1 ≡ s

    >>=-IsReading :
        {A B : Type 0} (m : M A) (k : A → M B)
        → IsReading m
        → ((a : A) → IsReading (k a))
        → IsReading (m >>= k)
    unfolding ◌>>=◌
    >>=-IsReading {A} {B} m k p q = record { at = λ s. after s (m s) (p.at s) }
      where
        after : (s : State) (r : Result A × State) → r.1 ≡ s → (continue r.0 k r.1).1 ≡ s
        after s (ok a, t) h = (q a).at t ∙ h
        after s (err x, t) h = h

    call-IsReading : (c : Call) → IsReading (call w c λ s. s)
    unfolding call
    call-IsReading c = record { at = λ s. after (w.fault c) s }
      where
        after : (fault : Option Error) (s : State) → (call_result fault (λ s. s) s).1 ≡ s
        after none s = refl
        after (some e) s = refl

    find_role-IsReading : (caller : Caller) (id : ℕ) → IsReading (find_role w caller id)
    unfolding find_role
    find_role-IsReading caller id =
        >>=-IsReading _ _
          (>>=-IsReading _ _
            (record { at = λ s. ap (λ r. r.1) (check_access-stays caller "role:view" s) })
            λ x. >>=-IsReading _ _ (call-IsReading _) λ y. record { at = λ s. refl })
          λ r. record { at = λ s. refl }

    pub update_role-Coherent :
        (caller : Caller) (id : ℕ) (dto : UpdateRoleDto) (s : State)
        → Coherent s
        → Coherent (update_role w caller id dto s).1
    unfolding update_role
    update_role-Coherent caller id dto s c =
        after ((start_update_role w caller id >> write_role w id dto) s) (
          checked_change caller "role:update" id (write_role w id dto) s
            (λ t. (write_role-IsQuiet id w dto).at t) c)
      where
        after :
            (r : Result (Unit {0}) × State)
            → Coherent r.1
            → Coherent (continue r.0 (λ _. find_role w caller id) r.1).1
        after (ok x, t) k = subst Coherent (sym ((find_role-IsReading caller id).at t)) k
        after (err e, t) k = k

    pub delete_role-Coherent :
        (caller : Caller) (id : ℕ) (s : State) → Coherent s → Coherent (delete_role w caller id s).1
    unfolding delete_role
    delete_role-Coherent caller id s c =
        checked_change caller "role:delete" id (delete_row_of w id) s
          (λ t. (delete_row_of-IsQuiet id w).at t) c

    pub create_role-Coherent :
        (id : ℕ) (caller : Caller) (dto : CreateRoleDto) (s : State)
        → user_ids_of_role s.db id ≡ []
        → Coherent s
        → Coherent (create_role w id caller dto s).1
    unfolding create_role
    create_role-Coherent id caller dto s unheld c =
        after ((check_access w caller "role:create" >> new_role w id dto) s) (
          subst
            (λ (r : Result (Unit {0}) × State).
              Coherent (continue r.0 (λ _. new_role w id dto) r.1).1)
            (sym (check_access-stays caller "role:create" s))
            (admitted (check_access w caller "role:create" s).0))
      where
        same : Cleared id s s
        same = (refl, λ v. ap (λ us. if mem v us then none else get v s.cache) (sym unheld))

        admitted : (may : Result (Unit {0})) → Coherent (continue may (λ _. new_role w id dto) s).1
        admitted (ok x) = changed-Coherent id s s _ c same ((new_role-IsQuiet id w dto).at s)
        admitted (err e) = c

        after :
            (r : Result (Unit {0}) × State)
            → Coherent r.1
            → Coherent (continue r.0 (λ _. find_role w caller id) r.1).1
        after (ok x, t) k = subst Coherent (sym ((find_role-IsReading caller id).at t)) k
        after (err e, t) k = k
