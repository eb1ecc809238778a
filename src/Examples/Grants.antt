-- ===== src/Examples/Grants.antt =====
-- Two users, a role, and the theorems on permissions and tokens applied to them.
use request_system.Common.{
  ℕ, String, Bool, true, false, none, some, List, [], ◌∷◌, if◌then◌else◌, ◌==◌, str_eq, bool_eq,
  ltb, ap, subst, sym, ◌∙◌, ◌&&◌, has_key, ◌≡◌, ◌↔◌, ◌<◌, ◌+◌, refl, arith, In,
}
use request_system.Errors.{Error, Result, ok, err}
use request_system.Grants.{
  Role, Tables, State, Call, World, mem, allowed, names_of, user_ids_of_role, get,
  get_all_user_permissions,
}
use request_system.Grants.Users.{update_user_permissions, users_update}
use request_system.Grants.Roles.{
  Caller, UpdateRoleDto, start_update_role, start_delete_role, delete_row_of, write_role,
  update_role, delete_role,
}
use request_system.Grants.Gate.{
  Claims, Parsed, Readings, expired, malformed, valid, passed, authorize_any, authorize_all,
  guarded, generate_tokens, validate_token, validate_refresh_token, err_invalid_token,
}
use request_system.Grants.Effective.{Granted, update_user_permissions_grants}
use request_system.Grants.Coherence.{Coherent}
use request_system.Grants.Requests.{
  Reachable, start, then_step, read_permissions_of, changed_user, get_all_user_permissions_coherent,
}
use request_system.Grants.Stale.{role_change_stale}
use request_system.Grants.Admission.{Passes, Authentic, identity_of}
use request_system.Grants.Routes.{guarded_any_iff, guarded_all_iff}
use request_system.Grants.Tokens.{generate_tokens_usable}

abbrev calm : World
calm = record { fault = λ c. none; is_user = λ u. true; active_status = 1 }

-- User 5 has role 7, which gives order:view.
abbrev tables : Tables
tables = record {
  permissions = (1, "order:view") ∷ (2, "order:delete") ∷ (3, "user:update") ∷ [];
  roles = record { id = 7; name = "clerk"; description = ""; status_id = 1 } ∷ [];
  role_permissions = (7, 1) ∷ [];
  user_roles = (5, 7) ∷ [];
  user_permissions = [];
  denials = [];
}

abbrev empty : State
empty = record { db = tables; cache = [] }

abbrev admin : List String
admin = "user:update" ∷ []

-- Deletion is granted to user 5, and viewing is taken from the user.
abbrev changed : State
changed = (update_user_permissions calm admin 5 (2 ∷ []) (1 ∷ []) empty).1

changes : update_user_permissions calm admin 5 (2 ∷ []) (1 ∷ []) empty ≡ (ok tt, changed)
unfolding update_user_permissions
changes = refl

names_before : names_of empty.db 5 ≡ "order:view" ∷ []
unfolding names_of
names_before = refl

names_after : names_of changed.db 5 ≡ "order:delete" ∷ []
unfolding names_of update_user_permissions
names_after = refl

update_user_permissions_grants_example :
    (update_user_permissions calm admin 5 (2 ∷ []) (1 ∷ []) empty ≡ (ok tt, changed)
      → (has_key users_update admin ≡ true) × Granted calm 5 (2 ∷ []) (1 ∷ []) empty changed)
    × ((x : Error)
        → update_user_permissions calm admin 5 (2 ∷ []) (1 ∷ []) empty ≡ (err x, changed)
        → changed.db ≡ empty.db)
update_user_permissions_grants_example =
    update_user_permissions_grants calm 5 admin (2 ∷ []) (1 ∷ []) empty changed

-- User 5 is asked for, then changed, then asked for again.
abbrev warm : State
warm = (get_all_user_permissions calm 5 empty).1

abbrev later : State
later = (update_user_permissions calm admin 5 (2 ∷ []) (1 ∷ []) warm).1

later_there : Reachable tables later
later_there =
    then_step (then_step start (read_permissions_of calm empty 5))
      (changed_user calm warm admin 5 (2 ∷ []) (1 ∷ []))

abbrev last : State
last = (get_all_user_permissions calm 5 later).1

answers : get_all_user_permissions calm 5 later ≡ (ok ("order:delete" ∷ []), last)
unfolding get_all_user_permissions update_user_permissions
answers = refl

get_all_user_permissions_coherent_example :
    ("order:delete" ∷ [] ≡ names_of later.db 5) × Coherent last
get_all_user_permissions_coherent_example =
    get_all_user_permissions_coherent calm tables later last 5 ("order:delete" ∷ []) later_there
      answers

-- An administrator takes everything from the role.
abbrev root : Caller
root = record { user_id = some 1; permissions = some ("role:update" ∷ "role:view" ∷ []) }

abbrev emptied : UpdateRoleDto
emptied = record { name = ""; description = none; status_id = none; permission_ids = some [] }

abbrev dropped : State
dropped = (start_update_role calm root 7 warm).1

starts : start_update_role calm root 7 warm ≡ (ok tt, dropped)
unfolding request_system.Grants.◌>>=◌ request_system.Grants.Roles.check_access
    request_system.Grants.invalidate_affected_users_cache get_all_user_permissions
starts = refl

abbrev between : State
between = (get_all_user_permissions calm 5 dropped).1

abbrev written : State
written = (write_role calm 7 emptied between).1

nothing_left : names_of written.db 5 ≡ []
unfolding names_of request_system.Grants.transaction request_system.Grants.◌>>=◌
    request_system.Grants.call get_all_user_permissions request_system.Grants.Roles.check_access
    request_system.Grants.invalidate_affected_users_cache
nothing_left = refl

role_change_stale_example :
    (start_update_role calm root 7 warm ≡ (ok tt, dropped)
      → (get_all_user_permissions calm 5 written).0 ≡ ok (names_of warm.db 5))
    × (start_delete_role calm root 7 warm ≡ (ok tt, dropped)
        → (get_all_user_permissions calm 5 (delete_row_of calm 7 between).1).0
          ≡ ok (names_of warm.db 5))
unfolding get_all_user_permissions
role_change_stale_example =
    role_change_stale calm refl refl refl refl refl root 7 emptied 5 warm dropped refl

stays_old : (get_all_user_permissions calm 5 written).0 ≡ ok ("order:view" ∷ [])
unfolding get_all_user_permissions request_system.Grants.transaction request_system.Grants.◌>>=◌
    request_system.Grants.call request_system.Grants.Roles.check_access
    request_system.Grants.invalidate_affected_users_cache
stays_old = refl

-- One after another, the change is seen.
seen_alone : (get_all_user_permissions calm 5 (update_role calm root 7 emptied warm).1).0 ≡ ok []
unfolding get_all_user_permissions update_role
seen_alone = refl

-- Two tokens, which say of whom they are.
abbrev access_claims : Claims
access_claims = record {
  user_id = 5;
  role_id = 7;
  is_refresh_token = false;
  expires_at = 100 + 60;
  issued_at = 100;
}

abbrev refresh_claims : Claims
refresh_claims = record access_claims { is_refresh_token = true; expires_at = 100 + 600 }

abbrev is_of : Bool → ℕ → Claims → Bool
is_of refresh expires c =
    c.user_id == 5
    && (c.role_id == 7
        && (bool_eq c.is_refresh_token refresh && (c.expires_at == expires && c.issued_at == 100)))

abbrev signed_of : Bool → Bool → Result String
signed_of true refresh = ok "a"
signed_of false true = ok "r"
signed_of false false = err err_invalid_token

abbrev sign : Claims → Result String
sign c = signed_of (is_of false (100 + 60) c) (is_of true (100 + 600) c)

abbrev read : ℕ → Claims → Parsed
read now c = if ltb now c.expires_at then valid c else expired

abbrev parse : ℕ → String → Parsed
parse now token =
    if str_eq token "a"
    then read now access_claims
    else if str_eq token "r"
    then read now refresh_claims
    else malformed

abbrev claims : ℕ → ℕ → Bool → ℕ → ℕ → Claims
claims u r b e i = record {
  user_id = u;
  role_id = r;
  is_refresh_token = b;
  expires_at = e;
  issued_at = i;
}

is_of-eq :
    (refresh : Bool) (expires : ℕ) (c : Claims)
    → is_of refresh expires c ≡ true
    → c ≡ claims 5 7 refresh expires 100
is_of-eq refresh expires c h =
    let u : c.user_id ≡ 5 = ground arith in
    let r : c.role_id ≡ 7 = ground arith in
    let b : c.is_refresh_token ≡ refresh = ground arith in
    let e : c.expires_at ≡ expires = ground arith in
    let i : c.issued_at ≡ 100 = ground arith in
    ap (λ x. claims x c.role_id c.is_refresh_token c.expires_at c.issued_at) u
    ∙ ap (λ x. claims 5 x c.is_refresh_token c.expires_at c.issued_at) r
    ∙ ap (λ x. claims 5 7 x c.expires_at c.issued_at) b
    ∙ ap (λ x. claims 5 7 refresh x c.issued_at) e
    ∙ ap (λ x. claims 5 7 refresh expires x) i

signed :
    (c : Claims) (token : String) (now : ℕ)
    → sign c ≡ ok token
    → now < c.expires_at
    → parse now token ≡ valid c
signed c token now h z = by_test (is_of false (100 + 60) c) (is_of true (100 + 600) c) refl refl h
  where
    good : (d : Claims) → c ≡ d → read now d ≡ valid c
    good d same =
        let y : now < d.expires_at = subst (λ (x : Claims). now < x.expires_at) same z in
        let r : read now d ≡ valid d = ground arith in r ∙ ap valid (sym same)

    by_test :
        (x y : Bool)
        → is_of false (100 + 60) c ≡ x
        → is_of true (100 + 600) c ≡ y
        → signed_of x y ≡ ok token
        → parse now token ≡ valid c
    by_test true y e f g =
        let t : token ≡ "a" = cc in
        ap (parse now) t ∙ good access_claims (is_of-eq false (100 + 60) c e)
    by_test false true e f g =
        let t : token ≡ "r" = cc in
        ap (parse now) t ∙ good refresh_claims (is_of-eq true (100 + 600) c f)
    by_test false false e f g = cc

guarded_any_iff_example :
    Passes
      (guarded parse calm (authorize_any ("order:view" ∷ [])) 120 false "Bearer a" empty)
      (identity_of tables access_claims)
    ↔ ((a : Claims) × Authentic parse 120 "Bearer a" a
        × ((p : String) × In p ("order:view" ∷ []) × In p (names_of tables a.user_id))
        × (identity_of tables a ≡ identity_of tables access_claims))
guarded_any_iff_example =
    guarded_any_iff parse calm refl tables empty ("order:view" ∷ []) 120 false "Bearer a"
      (identity_of tables access_claims) start

guarded_all_iff_example :
    Passes
      (guarded parse calm (authorize_all ("order:view" ∷ [])) 120 false "Bearer a" empty)
      (identity_of tables access_claims)
    ↔ ((a : Claims) × Authentic parse 120 "Bearer a" a
        × ((p : String) → In p ("order:view" ∷ []) → In p (names_of tables a.user_id))
        × (identity_of tables a ≡ identity_of tables access_claims))
guarded_all_iff_example =
    guarded_all_iff parse calm refl tables empty ("order:view" ∷ []) 120 false "Bearer a"
      (identity_of tables access_claims) start

passes :
    (guarded parse calm (authorize_any ("order:view" ∷ [])) 120 false "Bearer a" empty).0
    ≡ passed (identity_of tables access_claims)
unfolding guarded
passes = refl

abbrev clock : Readings
clock = record { access_at = 100; refresh_at = 100; issued_at = 100 }

signs : generate_tokens (λ n. n) sign clock 5 7 60 600 ≡ ok ("a", "r")
unfolding generate_tokens
signs = refl

generate_tokens_usable_example :
    (150 < 100 + 60
      → ((c : Claims) × (validate_token (parse 150 "a") ≡ ok c)
          × (c.user_id ≡ 5)
          × (c.role_id ≡ 7)
          × (c.is_refresh_token ≡ false))
        × (validate_refresh_token (parse 150 "a") ≡ err err_invalid_token))
    × (150 < 100 + 600
        → (validate_refresh_token (parse 150 "r") ≡ ok 5)
          × ((c : Claims) × (validate_token (parse 150 "r") ≡ ok c) × (c.is_refresh_token ≡ true)))
generate_tokens_usable_example =
    generate_tokens_usable (λ n. n) sign parse signed clock 5 7 60 600 150 "a" "r" (omega arith)
      signs
