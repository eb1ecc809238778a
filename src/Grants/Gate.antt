-- ===== src/Grants/Gate.antt =====
-- pkg/middleware/auth.go over pkg/service/jwt.go: whose request is let through. The JWT library is
-- the parameters `parse`, which is told the time, `sign`, and `numeric_date` for jwt.NewNumericDate.
use request_system.Common.{
  ℕ, String, Bool, true, false, ◌+◌, not, Option, none, some, List, [], ◌∷◌, if◌then◌else◌, ◌==◌,
  any, select, length, is_empty, str_eq, split_on, codes, codes_eq, to_lower,
}
use request_system.Errors.{
  Error, http, Result, ok, err, err_unauthorized, err_forbidden, err_internal_server,
}
use request_system.Grants.{State, World, get_all_user_permissions}

abbrev pub err_invalid_token : Error
err_invalid_token = http 401 "Недействительный токен"

abbrev pub err_token_expired : Error
err_token_expired = http 401 "Срок действия токена истек"

abbrev pub err_token_is_not_access : Error
err_token_is_not_access = http 401 "Токен не является access токеном"

abbrev pub err_invalid_auth_header : Error
err_invalid_auth_header = http 401 "Недействительный заголовок авторизации"

abbrev pub err_empty_auth_header : Error
err_empty_auth_header = http 401 "Отсутствует заголовок авторизации"

-- `JwtCustomClaim`.
pub record Claims : Type 0 where
  pub user_id : ℕ
  pub role_id : ℕ
  pub is_refresh_token : Bool
  pub expires_at : ℕ
  pub issued_at : ℕ

-- What `ParseWithClaims` makes of a token: the error of an expired one, another error, a token that
-- is not valid or has other claims, or the claims.
pub data Parsed : Type 0 where
  expired malformed foreign : Parsed
  valid : Claims → Parsed

-- `ValidateToken`. A user_id is unsigned, so that `<= 0` is `== 0`.
abbrev pub validate_token : Parsed → Result Claims
validate_token expired = err err_token_expired
validate_token malformed = err err_invalid_token
validate_token foreign = err err_invalid_token
validate_token (valid c) = if c.user_id == 0 then err err_invalid_token else ok c

abbrev pub refreshing : Result Claims → Result ℕ
refreshing (err e) = err e
refreshing (ok c) = if not c.is_refresh_token then err err_invalid_token else ok c.user_id

-- `ValidateRefreshToken`.
unfoldable pub validate_refresh_token : Parsed → Result ℕ
validate_refresh_token p = refreshing (validate_token p)

abbrev pub both : Result String → Result String → Result (String × String)
both (err e) _ = err e
both (ok a) (err e) = err e
both (ok a) (ok b) = ok (a, b)

-- What the clock says each time that `GenerateTokens` asks it.
pub record Readings : Type 0 where
  pub access_at : ℕ
  pub refresh_at : ℕ
  pub issued_at : ℕ

-- `GenerateTokens`.
unfoldable pub generate_tokens :
    (ℕ → ℕ) → (Claims → Result String) → Readings → ℕ → ℕ → ℕ → ℕ → Result (String × String)
generate_tokens numeric_date sign clock user_id role_id access_ttl refresh_ttl =
    both
      (sign record {
        user_id = user_id;
        role_id = role_id;
        is_refresh_token = false;
        expires_at = numeric_date (clock.access_at + access_ttl);
        issued_at = numeric_date clock.issued_at;
      })
      (sign record {
        user_id = user_id;
        role_id = role_id;
        is_refresh_token = true;
        expires_at = numeric_date (clock.refresh_at + refresh_ttl);
        issued_at = numeric_date clock.issued_at;
      })

-- The part of a request's context that these handlers set and read.
pub record Identity : Type 0 where
  pub user_id : ℕ
  pub role_id : ℕ
  pub permissions : List String

-- How a middleware ends: with an error as the response, without a word where the response is already
-- under way, or in the next handler.
pub data Reply : Type 0 where
  refused : Error → Reply
  silent : Reply
  passed : Identity → Reply

-- `strings.EqualFold(part, "Bearer")`. No letter of it has a fold outside ASCII.
abbrev pub is_bearer : String → Bool
is_bearer part = codes_eq (to_lower (codes part)) (to_lower (codes "Bearer"))

abbrev pub bearer_token : List String → Result String
bearer_token (scheme ∷ token ∷ []) =
    if not (is_bearer scheme) then err err_invalid_auth_header else ok token
bearer_token _ = err err_invalid_auth_header

-- The token of the header `Authorization`.
abbrev pub token_of : String → Result String
token_of header =
    if is_empty header then err err_empty_auth_header else bearer_token (split_on 32 header)

-- `handleAuthError`.
abbrev pub handle_auth_error : Bool → Error → Reply
handle_auth_error committed e = if not committed then refused e else silent

module _ (parse : ℕ → String → Parsed) (w : World) where
  abbrev pub with_permissions : Claims → Result (List String) × State → Reply × State
  with_permissions c (err e, s) = (refused err_internal_server, s)
  with_permissions c (ok names, s) =
      (passed (record { user_id = c.user_id; role_id = c.role_id; permissions = names }), s)

  abbrev pub with_claims : Bool → Result Claims → State → Reply × State
  with_claims committed (err e) s = (handle_auth_error committed e, s)
  with_claims committed (ok c) s =
      let answer = with_permissions c (get_all_user_permissions w c.user_id s) in
      if c.is_refresh_token then (refused err_token_is_not_access, s) else answer

  abbrev pub with_bearer : ℕ → Bool → Result String → State → Reply × State
  with_bearer now committed (err e) s = (refused e, s)
  with_bearer now committed (ok token) s =
      with_claims committed (validate_token (parse now token)) s

  -- `Auth`. The map of the permissions is the list, searched.
  unfoldable pub auth : ℕ → Bool → String → State → Reply × State
  unfolding get_all_user_permissions split_on
  auth now committed header s = with_bearer now committed (token_of header) s

abbrev pub is_held : List String → String → Bool
is_held permissions required = any (λ p. str_eq p required) permissions

-- `AuthorizeAny`: nothing stops the request, or an error does. A context that no Auth has filled has
-- no permissions.
abbrev pub authorize_any : List String → Option (List String) → Option Error
authorize_any required none = some err_unauthorized
authorize_any required (some permissions) =
    if any (is_held permissions) required then none else some err_forbidden

abbrev pub missing_permissions : List String → List String → List String
missing_permissions required permissions = select (λ r. not (is_held permissions r)) required

-- `AuthorizeAll`.
abbrev pub authorize_all : List String → Option (List String) → Option Error
authorize_all required none = some err_unauthorized
authorize_all required (some permissions) =
    if not (length (missing_permissions required permissions) == 0)
    then some err_forbidden
    else none

abbrev pub stopped : Option Error → Identity → Reply
stopped none c = passed c
stopped (some e) c = refused e

abbrev pub then_authorize : (Option (List String) → Option Error) → Reply × State → Reply × State
then_authorize check (passed c, s) = (stopped (check (some c.permissions)) c, s)
then_authorize check (refused e, s) = (refused e, s)
then_authorize check (silent, s) = (silent, s)

-- A route: Auth, and behind it one of the two checks.
unfoldable pub guarded :
    (ℕ → String → Parsed)
    → World
    → (Option (List String) → Option Error)
    → ℕ
    → Bool
    → String
    → State
    → Reply × State
unfolding auth
guarded parse w check now committed header s =
    then_authorize check (auth parse w now committed header s)
