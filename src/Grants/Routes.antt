-- ===== src/Grants/Routes.antt =====
-- Routes behind AuthorizeAny and AuthorizeAll of pkg/middleware/auth.go.
use request_system.Common.{
  ℕ, String, Bool, none, some, List, [], ◌∷◌, ◌≡◌, ◌↔◌, refl, subst, arith, Bool-cases, inl, inr,
  any, has_key_iff, In, any_sound, any_complete,
}
use request_system.Grants.{Tables, State, read_permissions, World, names_of}
use request_system.Grants.Gate.{
  Claims, Parsed, Identity, is_held, authorize_any, authorize_all, guarded,
}
use request_system.Grants.Requests.{Reachable, reached}
use request_system.Grants.Admission.{Passes, Authentic, identity_of, guarded-Authentic}

authorize_any_iff :
    (required permissions : List String)
    → (authorize_any required (some permissions) ≡ none)
      ↔ ((p : String) × In p required × In p permissions)
authorize_any_iff required permissions = elim (Bool-cases (any (is_held permissions) required)) [
  | inl e ↦ (
    λ h.
        let (p, m, k) = any_sound (is_held permissions) required e in
        (p, m, (has_key_iff p permissions).0 k),
    λ x. ground arith,
  )
  | inr e ↦ (
    λ h. ground arith,
    λ (p, m, n).
        let k = any_complete (is_held permissions) required p m ((has_key_iff p permissions).1 n) in
        cc,
  )
]

one_more :
    (r : String) (required permissions : List String)
    → In r permissions
    → ((p : String) → In p required → In p permissions)
    → (p : String) → In p (r ∷ required)
    → In p permissions
one_more r required permissions h k p (inl same) = subst (λ x. In x permissions) same h
one_more r required permissions h k p (inr m) = k p m

authorize_all_iff :
    (required permissions : List String)
    → (authorize_all required (some permissions) ≡ none)
      ↔ ((p : String) → In p required → In p permissions)
authorize_all_iff [] permissions = (λ h p m. absurd m, λ h. refl)
authorize_all_iff (r ∷ required) permissions = elim (Bool-cases (is_held permissions r)) [
  | inl e ↦ (
    λ h.
        one_more r required permissions ((has_key_iff r permissions).0 e)
          ((authorize_all_iff required permissions).0 (ground arith)),
    λ h. let rest = (authorize_all_iff required permissions).1 λ p m. h p (inr m) in ground arith,
  )
  | inr e ↦ (λ h. ground arith, λ h. let k = (has_key_iff r permissions).1 (h r (inl refl)) in cc)
]

module _ (parse : ℕ → String → Parsed) (w : World) (reads : w.fault read_permissions ≡ none) where
  -- While the tables answer, in each state that `Reachable` requests lead to one after another from an
  -- empty cache, a request comes to the handler behind Auth and AuthorizeAny if and only if its header is a Bearer
  -- with a token that parses now to the claims of a user other than 0 and is no refresh token, and the
  -- tables give that user one of the required permissions; the handler then runs for that user with
  -- the permissions of the tables.
  pub guarded_any_iff :
      (db : Tables) (s : State) (required : List String) (now : ℕ) (committed : Bool)
      (header : String) (d : Identity)
      → Reachable db s
      → Passes (guarded parse w (authorize_any required) now committed header s) d ↔ (
          (a : Claims) × Authentic parse now header a
          × ((p : String) × In p required × In p (names_of s.db a.user_id))
          × (identity_of s.db a ≡ d))
  guarded_any_iff db s required now committed header d r =
      let gate =
        guarded-Authentic parse w reads s (reached db s r) (authorize_any required) committed now
          header d in
      (
        λ h.
            let (a, authentic, e, same) = gate.0 h in
            (a, authentic, (authorize_any_iff required (names_of s.db a.user_id)).0 e, same),
        λ (a, authentic, h, same).
            gate.1 (a, authentic, (authorize_any_iff required (names_of s.db a.user_id)).1 h, same),
      )

  -- While the tables answer, in each state that `Reachable` requests lead to one after another from an
  -- empty cache, a request comes to the handler behind Auth and AuthorizeAll if and only if its header
  -- is a Bearer with a token that parses now to the claims of a user other than 0 and is no refresh
  -- token, and the tables give that user every required permission; the handler then runs for that
  -- user with the permissions of the tables.
  pub guarded_all_iff :
      (db : Tables) (s : State) (required : List String) (now : ℕ) (committed : Bool)
      (header : String) (d : Identity)
      → Reachable db s
      → Passes (guarded parse w (authorize_all required) now committed header s) d ↔ (
          (a : Claims) × Authentic parse now header a
          × ((p : String) → In p required → In p (names_of s.db a.user_id))
          × (identity_of s.db a ≡ d))
  guarded_all_iff db s required now committed header d r =
      let gate =
        guarded-Authentic parse w reads s (reached db s r) (authorize_all required) committed now
          header d in
      (
        λ h.
            let (a, authentic, e, same) = gate.0 h in
            (a, authentic, (authorize_all_iff required (names_of s.db a.user_id)).0 e, same),
        λ (a, authentic, h, same).
            gate.1 (a, authentic, (authorize_all_iff required (names_of s.db a.user_id)).1 h, same),
      )
