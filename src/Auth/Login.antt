-- ===== src/Auth/Login.antt =====
-- Who is let in.
use request_system.Common.{
  String, Bool, true, false, ◌&&◌, ◌||◌, not, ap, subst, Option, none, some, if◌then◌else◌, str_eq,
  ◌≡◌, refl, ◌↔◌, arith, Bool-cases, inl, inr,
}
use request_system.Errors.{http, Result, ok, err}
use request_system.Auth.{
  err_user_disabled, Account, State, Outside, Answer, welcome, refused, find_user, bound, told,
  ad_username, is_system_root, authenticate, admit, authenticated, found_user, login,
}

abbrev is_true : Option Bool → Bool
is_true none = false
is_true (some b) = b

module _ (o : Outside) where
  -- The hash of the password decides for the system's root and where there is no directory, and the
  -- directory decides for everyone else.
  abbrev pub vouched : String → String → Account → Bool
  vouched name password a =
      if is_system_root o name a || not o.ldap_enabled
      then o.compare_passwords a.password password
      else o.ldap_reached && is_true (o.ldap_bind (ad_username o name a.username) password)

  vouch :
      (root enabled reached : Bool) (bind : Option Bool) (c : Bool)
      → ((if root
            then ok c
            else if enabled
            then told o (
                if reached
                then bound o bind
                else err (http 500 "Ошибка подключения к сервису аутентификации"))
            else ok c)
          ≡ ok true)
        ↔ ((if root || not enabled then c else reached && is_true bind) ≡ true)
  vouch true enabled reached bind c = (λ e. cc, λ e. cc)
  vouch false false reached bind c = (λ e. cc, λ e. cc)
  vouch false true false bind c = (λ e. cc, λ e. cc)
  vouch false true true none c = (λ e. cc, λ e. cc)
  vouch false true true (some true) c = (λ e. refl, λ e. refl)
  vouch false true true (some false) c = (λ e. cc, λ e. cc)

  authenticate_iff :
      (name password : String) (a : Account)
      → (authenticate o name password a ≡ ok true) ↔ (vouched name password a ≡ true)
  unfolding authenticate
  authenticate_iff name password a =
      vouch (is_system_root o name a) o.ldap_enabled o.ldap_reached
        (o.ldap_bind (ad_username o name a.username) password)
        (o.compare_passwords a.password password)

  admit-welcome :
      (a b : Account) (s : State)
      → (admit o a s ≡ (welcome b, s)) ↔ ((a ≡ b) × (a.must_change_password ≡ false))
  admit-welcome a b s = elim (Bool-cases a.must_change_password) [
    | inl e ↦ (λ h. let g : (admit o a s).0 ≡ welcome b = ap (λ r. r.0) h in ground arith, λ h. cc)
    | inr e ↦ (
      λ h. let g : (admit o a s).0 ≡ welcome b = ap (λ r. r.0) h in ground arith,
      λ h. simp (e) (ap {B = Answer × State} (λ x. (welcome x, s)) h.0),
    )
  ]

  authenticated-welcome :
      (r : Result Bool) (a b : Account) (s : State)
      → (authenticated o a s r ≡ (welcome b, s))
        ↔ ((r ≡ ok true) × (a ≡ b) × (a.must_change_password ≡ false))
  authenticated-welcome (err e) a b s =
      (λ h. let g : refused e ≡ welcome b = ap (λ r. r.0) h in cc, λ h. cc)
  authenticated-welcome (ok false) a b s =
      (λ h. let g : (authenticated o a s (ok false)).0 ≡ welcome b = ap (λ r. r.0) h in cc, λ h. cc)
  authenticated-welcome (ok true) a b s = (
    λ h. let (e, f) = (admit-welcome a b s).0 h in (refl, e, f),
    λ h. (admit-welcome a b s).1 (h.1, h.2),
  )

  abbrev MayEnter : String → String → Account → Type 0
  MayEnter name password a =
      (str_eq a.status_code "ACTIVE" ≡ true)
      × (vouched name password a ≡ true)
      × (a.must_change_password ≡ false)

  entered :
      (name password : String) (a : Account) (s : State)
      → MayEnter name password a
      → found_user o name password s (some a) ≡ (welcome a, s)
  entered name password a s (active, known, settled) = rw active (
      (authenticated-welcome (authenticate o name password a) a a s).1
        ((authenticate_iff name password a).1 known, refl, settled))

  was_entered :
      (name password : String) (a b : Account) (s : State)
      → found_user o name password s (some a) ≡ (welcome b, s)
      → (a ≡ b) × MayEnter name password a
  was_entered name password a b s h = elim (Bool-cases (str_eq a.status_code "ACTIVE")) [
    | inl e ↦
        let g : authenticated o a s (authenticate o name password a) ≡ (welcome b, s) = rw e at h in
        let (r, q, f) = (authenticated-welcome (authenticate o name password a) a b s).0 g in
        (q, (e, (authenticate_iff name password a).0 r, f))
    | inr e ↦
        let g : (found_user o name password s (some a)).0 ≡ welcome b = ap (λ r. r.0) h in
        let g' : refused err_user_disabled ≡ welcome b = rw e at g in cc
  ]

  found_user-welcome :
      (found : Option Account) (name password : String) (b : Account) (s : State)
      → (found_user o name password s found ≡ (welcome b, s)) ↔ (
          (found ≡ some b)
          × (str_eq b.status_code "ACTIVE" ≡ true)
          × (vouched name password b ≡ true)
          × (b.must_change_password ≡ false))
  found_user-welcome none name password b s = (
    λ h. let g : (found_user o name password s none).0 ≡ welcome b = ap (λ r. r.0) h in cc,
    λ h. cc,
  )
  found_user-welcome (some a) name password b s = (
    λ h.
        let (q, may) = was_entered name password a b s h in
        let (active, known, settled) = subst (MayEnter name password) q may in
        (ap some q, active, known, settled),
    λ h.
        let q : b ≡ a = cc in
        subst (λ (x : Account). found_user o name password s (some x) ≡ (welcome b, s)) q
          (entered name password b s (h.1, h.2, h.3)),
  )

  -- A user is let in, with nothing changed, exactly when the login names that user, the account is
  -- active, the password is vouched for, and it need not be changed first.
  pub login_iff :
      (input password : String) (a : Account) (s : State)
      → (login o input password s ≡ (welcome a, s)) ↔ (
          (find_user o s (o.lower input) ≡ some a)
          × (str_eq a.status_code "ACTIVE" ≡ true)
          × (vouched (o.lower input) password a ≡ true)
          × (a.must_change_password ≡ false))
  unfolding login
  login_iff input password a s =
      found_user-welcome (find_user o s (o.lower input)) (o.lower input) password a s
