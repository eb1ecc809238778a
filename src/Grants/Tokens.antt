-- ===== src/Grants/Tokens.antt =====
-- The tokens that `GenerateTokens` of pkg/service/jwt.go hands out, read back.
use request_system.Common.{ℕ, String, true, false, ◌+◌, ◌<◌, ◌≡◌, ◌≢◌, refl, ap}
use request_system.Errors.{Result, ok, err}
use request_system.Grants.Gate.{
  Claims, Parsed, Readings, valid, validate_token, refreshing, validate_refresh_token, both,
  generate_tokens, err_invalid_token,
}
use request_system.Grants.Admission.{validate_token_iff}

both-ok : (r q : Result String) (a b : String) → both r q ≡ ok (a, b) → (r ≡ ok a) × (q ≡ ok b)
both-ok (err e) q a b h = cc
both-ok (ok x) (err e) a b h = cc
both-ok (ok x) (ok y) a b h =
    let g : ◌≡◌ {A = String × String} (x, y) (a, b) = cc in
    (ap ok (ap (λ p. p.0) g), ap ok (ap (λ p. p.1) g))

module _ (numeric_date : ℕ → ℕ) (sign : Claims → Result String) (parse : ℕ → String → Parsed)
    -- A signed token is good until it expires.
    (signed : (c : Claims) (token : String) (now : ℕ)
      → sign c ≡ ok token
      → numeric_date now < c.expires_at
      → parse now token ≡ valid c) where
  -- A pair of tokens for a user other than 0 is what it was made for: while it lasts, the first is a
  -- token of access with the user and the role, which no refresh accepts; and while it lasts, the
  -- second is accepted as a refresh of the same user and is marked as no token of access.
  pub generate_tokens_usable :
      (clock : Readings) (user_id role_id access_ttl refresh_ttl later : ℕ)
      (access refresh : String)
      → user_id ≢ 0
      → generate_tokens numeric_date sign clock user_id role_id access_ttl refresh_ttl
        ≡ ok (access, refresh)
      → (numeric_date later < numeric_date (clock.access_at + access_ttl)
          → ((c : Claims) × (validate_token (parse later access) ≡ ok c)
              × (c.user_id ≡ user_id)
              × (c.role_id ≡ role_id)
              × (c.is_refresh_token ≡ false))
            × (validate_refresh_token (parse later access) ≡ err err_invalid_token))
        × (numeric_date later < numeric_date (clock.refresh_at + refresh_ttl)
            → (validate_refresh_token (parse later refresh) ≡ ok user_id)
              × ((c : Claims) × (validate_token (parse later refresh) ≡ ok c)
                  × (c.is_refresh_token ≡ true)))
  unfolding generate_tokens validate_refresh_token
  generate_tokens_usable clock user_id role_id access_ttl refresh_ttl later access refresh nonzero
        h =
      let (first, second) = both-ok _ _ access refresh h in
      let read : (c : Claims) (token : String)
          → sign c ≡ ok token
          → c.user_id ≢ 0
          → numeric_date later < c.expires_at
          → validate_token (parse later token) ≡ ok c =
        λ c token e k z.
          (validate_token_iff (parse later token) c).1 (signed c token later e z, k) in
      (
        λ z. let e = read _ access first nonzero z in ((_, e, refl, refl, refl), ap refreshing e),
        λ z. let e = read _ refresh second nonzero z in (ap refreshing e, (_, e, refl)),
      )
