-- ===== src/Grants/Coherence.antt =====
-- The cache holds what the tables give, and a reading and a change of a user's permissions keep it so.
use mathlib.Core.Path.{fun_ext}
use request_system.Common.{
  ℕ, String, Bool, true, false, Option, none, some, List, has_key, if◌then◌else◌, ◌==◌, ◌≡◌, refl,
  sym, ◌∙◌, ap, subst, arith, Bool-cases, inl, inr,
}
use request_system.Errors.{Error, Result, ok, err, err_forbidden, wrap_db_error}
use request_system.Grants.{
  State, Call, cache_get, cache_set, read_permissions, read_role_permissions, World, M, continue,
  ◌>>=◌, answer, call, call_result, names_where, names_of, get, del, seen, kept_names, loaded,
  looked_up, get_all_user_permissions, invalidate_user_permissions_cache,
}
use request_system.Grants.Users.{
  users_update, write_permissions, with_base, base_read, update_user_permissions,
}
use request_system.Grants.Runs.{transaction-err, get-del, has_link-sync_user_links}
use request_system.Grants.Effective.{rewritten, with_base-eq}

-- Each entry of the cache is what the tables give its user.
abbrev pub Coherent : State → Type 0
Coherent s = (u : ℕ) (names : List String) → get u s.cache ≡ some names → names ≡ names_of s.db u

-- The entries of one state are among those of another.
abbrev pub Fewer : State → State → Type 0
Fewer s t = (u : ℕ) (names : List String) → get u t.cache ≡ some names → get u s.cache ≡ some names

pub Fewer-Coherent : (s t : State) → Fewer s t → t.db ≡ s.db → Coherent s → Coherent t
Fewer-Coherent s t f e c u names h = c u names (f u names h) ∙ ap (λ db. names_of db u) (sym e)

record IsFewer {A : Type 0} (m : M A) : Type 0 where
  pub at : (s : State) → Fewer s (m s).1

>>=-IsFewer :
    {A B : Type 0} (m : M A) (k : A → M B)
    → IsFewer m
    → ((a : A) → IsFewer (k a))
    → IsFewer (m >>= k)
unfolding ◌>>=◌
>>=-IsFewer {A} {B} m k p q = record { at = λ s. after s (m s) (p.at s) }
  where
    after : (s : State) (r : Result A × State) → Fewer s r.1 → Fewer s (continue r.0 k r.1).1
    after s (ok a, t) h u names e = h u names ((q a).at t u names e)
    after s (err x, t) h u names e = h u names e

call-IsFewer :
    (w : World) (c : Call) (f : State → State)
    → ((s : State) → Fewer s (f s))
    → IsFewer (call w c f)
unfolding call
call-IsFewer w c f q = record { at = λ s. after (w.fault c) s }
  where
    after : (fault : Option Error) (s : State) → Fewer s (call_result fault f s).1
    after none s = q s
    after (some e) s = λ u names h. h

pub deleted-Fewer : (v : ℕ) (s : State) → Fewer s (record s { cache = del v s.cache })
deleted-Fewer v s u names h = ground (arith, get-del u v s.cache)

write_permissions-IsFewer :
    (w : World) (u : ℕ) (add deny : List ℕ) → IsFewer (write_permissions w u add deny)
unfolding invalidate_user_permissions_cache
write_permissions-IsFewer w u add deny =
    >>=-IsFewer _ _
      (>>=-IsFewer _ _ (call-IsFewer w _ _ λ s v names h. h)
        λ x. call-IsFewer w _ _ λ s v names h. h)
      λ x. call-IsFewer w _ _ (deleted-Fewer u)

-- A change of one user's permissions leaves the names of the others.
rewritten-names :
    (u v : ℕ) (add deny : List ℕ) (s : State)
    → (v == u) ≡ false
    → names_of (rewritten u add deny s).db v ≡ names_of s.db v
unfolding names_of
rewritten-names u v add deny s h = ap (names_where s.db.permissions) (
    fun_ext λ id. ground (
      arith,
      has_link-sync_user_links v id u add s.db.user_permissions,
      has_link-sync_user_links v id u deny s.db.denials,
    ))

rewritten-Coherent :
    (u : ℕ) (add deny : List ℕ) (s : State) → Coherent s → Coherent (rewritten u add deny s)
rewritten-Coherent u add deny s c v names h = elim (Bool-cases (v == u)) [
  | inl e ↦ ground (arith, get-del v u s.cache)
  | inr e ↦
      let h' : get v s.cache ≡ some names = ground (arith, get-del v u s.cache) in
      c v names h' ∙ sym (rewritten-names u v add deny s e)
]

module _ (w : World) where
  with_base-Coherent :
      (u : ℕ) (has_access no_access : List ℕ) (s : State)
      → Coherent s
      → Coherent (with_base w u has_access no_access s).1
  with_base-Coherent u has_access no_access s c = after (with_base w u has_access no_access s) refl
    where
      after :
          (r : Result (Unit {0}) × State) → with_base w u has_access no_access s ≡ r → Coherent r.1
      after (ok x, t) e =
          subst Coherent (sym (with_base-eq w u has_access no_access s t e))
            (rewritten-Coherent u _ _ s c)
      after (err x, t) e =
          let (same, cache) = transaction-err w wrap_db_error _ s t x e in
          elim cache [
            | inl k ↦ Fewer-Coherent s t (λ v names h. ap (get v) (sym k) ∙ h) same c
            | inr k ↦
                Fewer-Coherent s t
                  (λ v names h.
                    (write_permissions-IsFewer w u _ _).at s v names (ap (get v) (sym k) ∙ h))
                  same c
          ]

  pub update_user_permissions-Coherent :
      (caller : List String) (u : ℕ) (has_access no_access : List ℕ) (s : State)
      → Coherent s
      → Coherent (update_user_permissions w caller u has_access no_access s).1
  unfolding update_user_permissions
  update_user_permissions-Coherent caller u has_access no_access s c =
      may (has_key users_update caller)
    where
      read : (fault : Option Error) → Coherent (base_read w fault u has_access no_access s).1
      read none = with_base-Coherent u has_access no_access s c
      read (some e) = c

      may :
          (b : Bool)
          → Coherent
              ((if b
                  then base_read w (w.fault read_role_permissions) u has_access no_access
                  else answer (err err_forbidden))
                s).1
      may true = read (w.fault read_role_permissions)
      may false = c

  -- A reading keeps the cache coherent, and gives what the tables give.
  abbrev Reads : ℕ → State → Result (List String) × State → Type 0
  Reads u s r = Coherent r.1 × ((names : List String) → r.0 ≡ ok names → names ≡ names_of s.db u)

  kept_names-Coherent :
      (u : ℕ) (fault : Option Error) (s : State)
      → Coherent s
      → Coherent (kept_names w u (names_of s.db u) fault s)
  kept_names-Coherent u (some e) s c = c
  kept_names-Coherent u none s c = λ v names h. elim (Bool-cases (u == v)) [
    | inl e ↦
        let same : u ≡ v = ground arith in
        let k : names_of s.db u ≡ names = ground arith in sym k ∙ ap (names_of s.db) same
    | inr e ↦ c v names (ground arith)
  ]

  loaded-Reads :
      (u : ℕ) (fault : Option Error) (s : State) → Coherent s → Reads u s (loaded w u fault s)
  loaded-Reads u (some e) s c = (c, λ names h. cc)
  loaded-Reads u none s c = (kept_names-Coherent u (w.fault cache_set) s c, λ names h. cc)

  looked_up-Reads :
      (u : ℕ) (found : Option (List String)) (s : State)
      → Coherent s
      → ((names : List String) → found ≡ some names → names ≡ names_of s.db u)
      → Reads u s (looked_up w u found s)
  looked_up-Reads u none s c right = loaded-Reads u (w.fault read_permissions) s c
  looked_up-Reads u (some names) s c right = (c, λ other h. right other (cc))

  seen-right :
      (u : ℕ) (fault : Option Error) (s : State)
      → Coherent s
      → (names : List String) → seen fault (get u s.cache) ≡ some names
      → names ≡ names_of s.db u
  seen-right u none s c names h = c u names h
  seen-right u (some e) s c names h = cc

  pub get_all_user_permissions-Reads :
      (u : ℕ) (s : State) → Coherent s → Reads u s (get_all_user_permissions w u s)
  unfolding get_all_user_permissions
  get_all_user_permissions-Reads u s c =
      looked_up-Reads u (seen (w.fault cache_get) (get u s.cache)) s c
        (seen-right u (w.fault cache_get) s c)
