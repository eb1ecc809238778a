-- ===== src/Auth/Reset.antt =====
-- A token for a new password serves once.
use request_system.Common.{
  ℕ, String, Bool, true, false, not, Option, none, some, [], ◌∷◌, ◌≡◌, refl, sym, ◌∙◌, ap, subst,
  arith, ◌⊎◌, inl, inr, Bool-cases, parse_uint,
}
use request_system.Errors.{Error, http, Result, ok, err}
use request_system.Auth.{
  Key, reset_phone_code, verify_phone, force_change_token, same_key, Cache, get, del, State,
  Outside, err_invalid_credentials, cached, del_cached, with_password, write_password, key_of_token,
  with_token, for_user, hashed, stored_password, reset_password,
}

get-del_same : (k : Key) (c : Cache) → get k (del k c) ≡ none
get-del_same k [] = refl
get-del_same k ((k', v) ∷ c) = ground (arith, get-del_same k c)

apart :
    (force : Bool) (token : String) (k : Key)
    → same_key k (key_of_token force token) ≡ true
    → same_key k (key_of_token (not force) token) ≡ false
apart true token (force_change_token t) h = refl
apart true token (verify_phone t) h = cc
apart true token (reset_phone_code t) h = cc
apart false token (force_change_token t) h = cc
apart false token (verify_phone t) h = refl
apart false token (reset_phone_code t) h = cc

-- The lookup of one kind of token after the other kind was deleted.
get-del_other :
    (force : Bool) (token : String) (c : Cache)
    → get (key_of_token (not force) token) (del (key_of_token force token) c)
      ≡ get (key_of_token (not force) token) c
get-del_other force token [] = refl
get-del_other force token ((k', v) ∷ c) =
    elim (Bool-cases (same_key k' (key_of_token force token))) [
      | inl e ↦ ground (arith, apart force token k' e, get-del_other force token c)
      | inr e ↦ ground (arith, get-del_other force token c)
    ]

module _ (o : Outside) (token new : String) where
  -- The token stands for a user, whose password is what the new one is hashed to, and nobody else's
  -- changed; nothing answers to the token any more.
  abbrev pub Renewed : State → State → Type 0
  Renewed s s' =
      (force : Bool) × (text : String) × (id : ℕ) × (hash : String) × (get
          (key_of_token force token) s.cache
        ≡ some text)
      × (parse_uint text ≡ some id)
      × (o.hash_password new ≡ some hash)
      × (s'.accounts ≡ with_password force id hash s.accounts)
      × (get (verify_phone token) s'.cache ≡ none)
      × (get (force_change_token token) s'.cache ≡ none)

  abbrev Deleted : Bool → ℕ → String → State → State → Type 0
  Deleted force id hash s s' =
      (s'.accounts ≡ with_password force id hash s.accounts)
      × (get (key_of_token force token) s'.cache ≡ none)
      × (get (key_of_token (not force) token) s'.cache ≡ none)

  deleted :
      (force : Bool) (id : ℕ) (hash : String) (s : State)
      → o.cache_down ≡ false
      → get (key_of_token (not force) token) s.cache ≡ none
      → Deleted force id hash s
          (del_cached o (key_of_token force token) (write_password force id hash s))
  deleted force id hash s up other = rw up (
    refl,
    get-del_same (key_of_token force token) s.cache,
    get-del_other force token s.cache ∙ other,
  )

  stored :
      (force : Bool) (id : ℕ) (hash : String) (fault : Option Error) (s s' : State)
      → stored_password o force id hash token s fault ≡ (ok tt, s')
      → o.cache_down ≡ false
      → get (key_of_token (not force) token) s.cache ≡ none
      → Deleted force id hash s s'
  stored force id hash (some e) s s' h up other =
      let g : ◌≡◌ {A = Result (Unit {0})} (err e) (ok tt) = ap (λ r. r.0) h in cc
  stored force id hash none s s' h up other =
      subst (Deleted force id hash s) (ap (λ r. r.1) h) (deleted force id hash s up other)

  Done : Bool → State → State → Option ℕ → Type 0
  Done force s s' parsed =
      (id : ℕ) × (hash : String) × (parsed ≡ some id)
      × (o.hash_password new ≡ some hash)
      × Deleted force id hash s s'

  was_hashed :
      (force : Bool) (id : ℕ) (found : Option String) (s s' : State)
      → hashed o force id token s found ≡ (ok tt, s')
      → o.cache_down ≡ false
      → get (key_of_token (not force) token) s.cache ≡ none
      → (hash : String) × (found ≡ some hash) × Deleted force id hash s s'
  was_hashed force id none s s' h up other =
      let g : ◌≡◌ {A = Result (Unit {0})} (err (http 500 "Внутренняя ошибка сервера")) (ok tt) =
        ap (λ r. r.0) h in
      cc
  was_hashed force id (some hash) s s' h up other =
      (hash, refl, stored force id hash o.write_fault s s' h up other)

  reset_for :
      (force : Bool) (parsed : Option ℕ) (s s' : State)
      → for_user o force token new s parsed ≡ (ok tt, s')
      → o.cache_down ≡ false
      → get (key_of_token (not force) token) s.cache ≡ none
      → Done force s s' parsed
  unfolding Done
  reset_for force none s s' h up other =
      let g : ◌≡◌ {A = Result (Unit {0})} (err err_invalid_credentials) (ok tt) = ap (λ r. r.0) h in
      cc
  reset_for force (some id) s s' h up other =
      let (hash, e, d) = was_hashed force id (o.hash_password new) s s' h up other in
      (id, hash, refl, e, d)

  reset_by :
      (verified forced : Option String) (s s' : State)
      → with_token o token new s verified forced ≡ (ok tt, s')
      → get (verify_phone token) s.cache ≡ verified
      → get (force_change_token token) s.cache ≡ forced
      → o.cache_down ≡ false
      → (verified ≡ none) ⊎ (forced ≡ none)
      → Renewed s s'
  unfolding Done
  reset_by none none s s' h v f up one =
      let g : ◌≡◌ {A = Result (Unit {0})} (err err_invalid_credentials) (ok tt) = ap (λ r. r.0) h in
      cc
  reset_by none (some text) s s' h v f up one =
      let (id, hash, p, e, (written, gone, other)) = reset_for true (parse_uint text) s s' h up v in
      (true, text, id, hash, f, p, e, written, other, gone)
  reset_by (some text) forced s s' h v f up one =
      let nothing : forced ≡ none = elim one [ inl e ↦ cc | inr e ↦ e ] in
      let (id, hash, p, e, (written, gone, other)) =
        reset_for false (parse_uint text) s s' h up (f ∙ nothing) in
      (false, text, id, hash, v, p, e, written, gone, other)

  cached-get : (k : Key) (s : State) → o.cache_down ≡ false → cached o k s ≡ get k s.cache
  cached-get k s up = ground arith

  -- With the cache in reach, and a token that stands under one of the two keys only, a reset that
  -- succeeds has found the token there: the user that it stands for has the new password's hash, every
  -- other account is as it was, and the token is gone, so that it is refused when it comes again.
  pub reset_password_once :
      (s s' : State)
      → o.cache_down ≡ false
      → (get (verify_phone token) s.cache ≡ none) ⊎ (get (force_change_token token) s.cache ≡ none)
      → reset_password o token new s ≡ (ok tt, s')
      → Renewed s s'
        × ((later : String) → (reset_password o token later s').0 ≡ err err_invalid_credentials)
  unfolding reset_password
  reset_password_once s s' up one h =
      let v = cached-get (verify_phone token) s up in
      let f = cached-get (force_change_token token) s up in
      let (force, text, id, hash, t, p, e, written, gone, gone') =
        reset_by (get (verify_phone token) s.cache) (get (force_change_token token) s.cache) s s'
          (sym (λ i. with_token o token new s (v i) (f i)) ∙ h) refl refl up one in
      let v' = cached-get (verify_phone token) s' up ∙ gone in
      let f' = cached-get (force_change_token token) s' up ∙ gone' in
      (
        (force, text, id, hash, t, p, e, written, gone, gone'),
        λ later i. (with_token o token later s' (v' i) (f' i)).0,
      )
