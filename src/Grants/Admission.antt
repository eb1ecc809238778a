-- ===== src/Grants/Admission.antt =====
-- Whom the guards of a route let through, with the cache and the tables they ask.
use request_system.Common.{
  ℕ, String, Bool, true, false, Option, none, some, List, [], ◌∷◌, if◌then◌else◌, ◌==◌, ◌≡◌, ◌≢◌,
  ◌↔◌, refl, sym, ◌∙◌, ap, subst, arith, Bool-cases, inl, inr, split_on, is_empty,
}
use request_system.Errors.{Error, Result, ok, err}
use request_system.Grants.{
  Tables, State, cache_get, read_permissions, World, names_of, get, seen, loaded, looked_up,
  get_all_user_permissions,
}
use request_system.Grants.Gate.{
  Claims, Parsed, expired, malformed, foreign, valid, validate_token, Identity, Reply, refused,
  silent, passed, is_bearer, token_of, bearer_token, with_bearer, with_claims, with_permissions,
  handle_auth_error, stopped, then_authorize, guarded, err_invalid_token, err_token_is_not_access,
  err_empty_auth_header,
}
use request_system.Grants.Coherence.{Coherent}

-- The header has the token behind a Bearer.
abbrev pub Bears : String → String → Type 0
Bears header token =
    (scheme : String) × (split_on 32 header ≡ scheme ∷ token ∷ []) × (is_bearer scheme ≡ true)

bearer_token_sound :
    (parts : List String) (token : String)
    → bearer_token parts ≡ ok token
    → (scheme : String) × (parts ≡ scheme ∷ token ∷ []) × (is_bearer scheme ≡ true)
bearer_token_sound [] token h = cc
bearer_token_sound (a ∷ []) token h = cc
bearer_token_sound (a ∷ b ∷ []) token h = elim (Bool-cases (is_bearer a)) [
  | inl e ↦
      let g : ◌≡◌ {A = Result String} (ok b) (ok token) = rw e at h in
      let same : b ≡ token = cc in (a, ap (λ t. a ∷ t ∷ []) same, e)
  | inr e ↦ ground arith
]
bearer_token_sound (a ∷ b ∷ c ∷ l) token h = cc

bearer_token_complete :
    (scheme token : String)
    → is_bearer scheme ≡ true
    → bearer_token (scheme ∷ token ∷ []) ≡ ok token
bearer_token_complete scheme token e = ground arith

empty-split_on : (header : String) → is_empty header ≡ true → split_on 32 header ≡ "" ∷ []
unfolding split_on
empty-split_on String.[] h = refl
empty-split_on (String.◌∷◌ c s) h = cc

token_of_iff : (header token : String) → (token_of header ≡ ok token) ↔ Bears header token
token_of_iff header token = elim (Bool-cases (is_empty header)) [
  | inl e ↦ (
    λ h. ground arith,
    λ (scheme, h, b).
        let g : "" ∷ [] ≡ scheme ∷ token ∷ [] = sym (empty-split_on header e) ∙ h in cc,
  )
  | inr e ↦ (
    λ h. bearer_token_sound (split_on 32 header) token (ground arith),
    λ (scheme, h, b).
        ap (λ c. if c then err err_empty_auth_header else bearer_token (split_on 32 header)) e
        ∙ ap bearer_token h
        ∙ bearer_token_complete scheme token b,
  )
]

pub validate_token_iff :
    (p : Parsed) (c : Claims) → (validate_token p ≡ ok c) ↔ ((p ≡ valid c) × (c.user_id ≢ 0))
validate_token_iff expired c = (λ h. cc, λ h. cc (h.0))
validate_token_iff malformed c = (λ h. cc, λ h. cc (h.0))
validate_token_iff foreign c = (λ h. cc, λ h. cc (h.0))
validate_token_iff (valid d) c = (
  λ h. elim (Bool-cases (d.user_id == 0)) [
    | inl e ↦ ground arith
    | inr e ↦
        let g : ◌≡◌ {A = Result Claims} (ok d) (ok c) = rw e at h in
        let same : d ≡ c = cc in
        (ap valid same, subst (λ (x : Claims). x.user_id ≢ 0) same λ z. ground arith)
  ],
  λ h.
      let same : d ≡ c = cc (h.0) in
      let e : (d.user_id == 0) ≡ false = ground (arith, h.1, ap (λ (x : Claims). x.user_id) same) in
      ap (λ b. if b then err err_invalid_token else ok d) e ∙ ap ok same,
)

-- The request comes to the handler behind the guards.
abbrev pub Passes : Reply × State → Identity → Type 0
Passes r c = (s : State) × (r ≡ (passed c, s))

abbrev pub identity_of : Tables → Claims → Identity
identity_of db c = record {
  user_id = c.user_id;
  role_id = c.role_id;
  permissions = names_of db c.user_id;
}

-- The request bears a token of access with these claims.
abbrev pub Authentic : (ℕ → String → Parsed) → ℕ → String → Claims → Type 0
Authentic parse now header a =
    (token : String) × Bears header token
    × (parse now token ≡ valid a)
    × (a.user_id ≢ 0)
    × (a.is_refresh_token ≡ false)

module _ (parse : ℕ → String → Parsed) (w : World) (reads : w.fault read_permissions ≡ none) where
  abbrev Answers : ℕ → State → Result (List String) × State → Type 0
  Answers u s r = (s' : State) × (r ≡ (ok (names_of s.db u), s'))

  looked_up-Answers :
      (u : ℕ) (found : Option (List String)) (s : State)
      → ((names : List String) → found ≡ some names → names ≡ names_of s.db u)
      → Answers u s (looked_up w u found s)
  looked_up-Answers u (some names) s right = (s, ap (λ n. (ok n, s)) (right names refl))
  looked_up-Answers u none s right = (_, ap (λ fault. loaded w u fault s) reads)

  module _ (s : State) (c : Coherent s) where
    get_all-Answers : (u : ℕ) → Answers u s (get_all_user_permissions w u s)
    unfolding get_all_user_permissions
    get_all-Answers u =
        looked_up-Answers u (seen (w.fault cache_get) (get u s.cache)) s
          λ names h. cached (w.fault cache_get) names h
      where
        cached :
            (fault : Option Error) (names : List String)
            → seen fault (get u s.cache) ≡ some names
            → names ≡ names_of s.db u
        cached none names h = c u names h
        cached (some e) names h = cc

    module _ (check : Option (List String) → Option Error) (committed : Bool) where
      stopped_iff :
          (o : Option Error) (d d' : Identity) (t : State)
          → ((t' : State) × (◌≡◌ {A = Reply × State} (stopped o d, t) (passed d', t')))
            ↔ ((o ≡ none) × (d ≡ d'))
      stopped_iff none d d' t = (
        λ (t', e). (refl, let g : ◌≡◌ {A = Reply} (passed d) (passed d') = ap (λ r. r.0) e in cc),
        λ (x, e). (t, ap (λ z. (passed z, t)) e),
      )
      stopped_iff (some e) d d' t = (
        λ (t', h). (let g : ◌≡◌ {A = Reply} (refused e) (passed d') = ap (λ r. r.0) h in cc),
        λ (x, h). cc x,
      )

      -- The claims are of a token of access, and the check is content.
      abbrev Admits : Claims → Identity → Type 0
      Admits a d =
          (a.is_refresh_token ≡ false)
          × (check (some (names_of s.db a.user_id)) ≡ none)
          × (identity_of s.db a ≡ d)

      with_permissions_iff :
          (a : Claims) (d : Identity)
          → Passes
              (then_authorize check
                (with_permissions parse w a (get_all_user_permissions w a.user_id s)))
              d
            ↔ ((check (some (names_of s.db a.user_id)) ≡ none) × (identity_of s.db a ≡ d))
      with_permissions_iff a d =
          let (t, e) = get_all-Answers a.user_id in
          subst
            (λ (r : Result (List String) × State).
              Passes (then_authorize check (with_permissions parse w a r)) d
              ↔ ((check (some (names_of s.db a.user_id)) ≡ none) × (identity_of s.db a ≡ d)))
            (sym e) (stopped_iff (check (some (names_of s.db a.user_id))) (identity_of s.db a) d t)

      refresh_iff :
          (refresh : Bool) (a : Claims) (d : Identity)
          → Passes
              (then_authorize check (
                if refresh
                then (refused err_token_is_not_access, s)
                else with_permissions parse w a (get_all_user_permissions w a.user_id s)))
              d
            ↔ ((refresh ≡ false)
                × (check (some (names_of s.db a.user_id)) ≡ none)
                × (identity_of s.db a ≡ d))
      refresh_iff true a d = (
        λ (t, h).
            (let g : ◌≡◌ {A = Reply} (refused err_token_is_not_access) (passed d) =
                ap (λ r. r.0) h in
              cc),
        λ (x, y, z). cc x,
      )
      refresh_iff false a d = (
        λ h. let (y, z) = (with_permissions_iff a d).0 h in (refl, y, z),
        λ (x, y, z). (with_permissions_iff a d).1 (y, z),
      )

      with_claims_iff :
          (r : Result Claims) (d : Identity)
          → Passes (then_authorize check (with_claims parse w committed r s)) d
            ↔ ((a : Claims) × (r ≡ ok a) × Admits a d)
      with_claims_iff (ok a) d = (
        λ h. (a, refl, (refresh_iff a.is_refresh_token a d).0 h),
        λ (b, e, h).
            let same : b ≡ a = cc in
            (refresh_iff a.is_refresh_token a d).1 (subst (λ (x : Claims). Admits x d) same h),
      )
      with_claims_iff (err e) d = (λ (t, h). absurd (never committed (t, h)), λ (b, x, h). cc)
        where
          never :
              (b : Bool)
              → ((t : State) × ◌≡◌ {A = Reply × State}
                    (then_authorize check (handle_auth_error b e, s))
                    (passed d, t))
              → ⊥
          never true (t, h) = let g : ◌≡◌ {A = Reply} silent (passed d) = ap (λ r. r.0) h in cc
          never false (t, h) =
              let g : ◌≡◌ {A = Reply} (refused e) (passed d) = ap (λ r. r.0) h in cc

      with_bearer_iff :
          (now : ℕ) (r : Result String) (d : Identity)
          → Passes (then_authorize check (with_bearer parse w now committed r s)) d ↔ (
              (token : String) × (a : Claims) × (r ≡ ok token)
              × (validate_token (parse now token) ≡ ok a)
              × Admits a d)
      with_bearer_iff now (err e) d = (
        λ (t, h). (let g : ◌≡◌ {A = Reply} (refused e) (passed d) = ap (λ r. r.0) h in cc),
        λ (token, a, x, v, h). cc,
      )
      with_bearer_iff now (ok token) d = (
        λ h.
            let (a, e, k) = (with_claims_iff (validate_token (parse now token)) d).0 h in
            (token, a, refl, e, k),
        λ (other, a, x, e, k).
            let same : other ≡ token = cc in
            (with_claims_iff (validate_token (parse now token)) d).1
              (a, ap (λ t. validate_token (parse now t)) (sym same) ∙ e, k),
      )

      pub guarded-Authentic :
          (now : ℕ) (header : String) (d : Identity)
          → Passes (guarded parse w check now committed header s) d ↔ (
              (a : Claims) × Authentic parse now header a
              × (check (some (names_of s.db a.user_id)) ≡ none)
              × (identity_of s.db a ≡ d))
      unfolding guarded
      guarded-Authentic now header d = (
        λ h.
            let (token, a, e, v, (refresh, content, same)) =
              (with_bearer_iff now (token_of header) d).0 h in
            let (p, nonzero) = (validate_token_iff (parse now token) a).0 v in
            (a, (token, (token_of_iff header token).0 e, p, nonzero, refresh), content, same),
        λ (a, (token, b, p, nonzero, refresh), content, same).
            (with_bearer_iff now (token_of header) d).1 (
              token,
              a,
              (token_of_iff header token).1 b,
              (validate_token_iff (parse now token) a).1 (p, nonzero),
              (refresh, content, same),
            ),
      )
