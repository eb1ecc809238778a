-- ===== src/Auth.antt =====
-- internal/services/auth.go: who may log in, and how a password is reset. Active Directory, the
-- hashes of passwords, UUIDs and random codes come from outside; an entry of the cache that has
-- expired is one that is not there.
pub mod Login
pub mod Reset
use Prim.Native.String.{◌++◌ as concat}
use request_system.Common.{
  ℕ, suc, String, Bool, true, false, ◌&&◌, ◌||◌, not, Option, none, some, List, [], ◌∷◌, ◌++◌, map,
  if◌then◌else◌, ◌==◌, str_eq, find, select, is_empty, format_uint, parse_uint,
}
use request_system.Errors.{Error, http, panic, Result, ok, err}

-- The part of `User` that this service reads.
pub record Account : Type 0 where
  pub id : ℕ
  pub email : String
  pub username : Option String
  pub password : String
  pub status_code : String
  pub must_change_password : Bool
  pub telegram_chat_id : Option ℕ

-- `entities.User{}`.
abbrev pub empty_account : Account
empty_account = record {
  id = 0;
  email = "";
  username = none;
  password = "";
  status_code = "";
  must_change_password = false;
  telegram_chat_id = none;
}

abbrev pub account_or_empty : Option Account → Account
account_or_empty none = empty_account
account_or_empty (some a) = a

-- The keys of the cache, by their formats.
pub data Key : Type 0 where
  reset_phone_code : String → Key
  verify_phone : String → Key
  force_change_token : String → Key

abbrev pub same_key : Key → Key → Bool
same_key (reset_phone_code a) (reset_phone_code b) = str_eq a b
same_key (verify_phone a) (verify_phone b) = str_eq a b
same_key (force_change_token a) (force_change_token b) = str_eq a b
same_key _ _ = false

abbrev pub Cache : Type 0
Cache = List (Key × String)

abbrev pub get : Key → Cache → Option String
get k [] = none
get k ((k', v) ∷ c) = let rest = get k c in if same_key k' k then some v else rest

abbrev pub del : Key → Cache → Cache
del k = select λ e. not (same_key e.0 k)

pub record State : Type 0 where
  pub accounts : List Account
  pub cache : Cache
  pub tokens : ℕ
  pub messages : List (ℕ × String)

-- What the service meets outside. A bind has `none` where it fails for another reason than the
-- password.
pub record Outside : Type 0 where
  pub lower : String → String
  pub system_root_login : String
  pub compare_passwords : String → String → Bool
  pub hash_password : String → Option String
  pub ldap_enabled : Bool
  pub ldap_reached : Bool
  pub ldap_bind : String → String → Option Bool
  pub uuid : ℕ → String
  pub reset_code : ℕ → String
  pub reads_fail : Bool
  pub write_fault : Option Error
  pub cache_down : Bool

abbrev pub err_invalid_credentials : Error
err_invalid_credentials = http 401 "Неверные учетные данные"

abbrev pub err_user_disabled : Error
err_user_disabled = http 403 "Аккаунт неактивен"

pub data Answer : Type 0 where
  welcome : Account → Answer
  change_password : String → Answer
  refused : Error → Answer

abbrev pub key_of_token : Bool → String → Key
key_of_token force token = if force then force_change_token token else verify_phone token

-- `UpdatePassword`, which also lowers the flag where it is a first login.
abbrev pub with_password : Bool → ℕ → String → List Account → List Account
with_password force id hash = map λ a.
    if a.id == id
    then record a { password = hash; must_change_password = a.must_change_password && not force }
    else a

abbrev pub write_password : Bool → ℕ → String → State → State
write_password force id hash s = record s { accounts = with_password force id hash s.accounts }

module _ (o : Outside) where
  abbrev same_username : Option String → String → Bool
  same_username none login = false
  same_username (some name) login = str_eq (o.lower name) (o.lower login)

  -- `FindUserByEmailOrLogin` without its error; `none` where there is one, be it that of no row.
  abbrev pub find_user : State → String → Option Account
  find_user s login =
      if o.reads_fail
      then none
      else find
          (λ (a : Account).
            str_eq (o.lower a.email) (o.lower login) || same_username a.username login)
          s.accounts

  -- The pointer that the same call gives beside its error: nil where the query fails, and an empty
  -- user where it finds no row.
  abbrev pub found_pointer : State → String → Option Account
  found_pointer s login = if o.reads_fail then none else some (account_or_empty (find_user s login))

  abbrev pub cached : Key → State → Option String
  cached k s = if o.cache_down then none else get k s.cache

  abbrev pub set_cached : Key → String → State → State
  set_cached k v s = if o.cache_down then s else record s { cache = (k, v) ∷ s.cache }

  abbrev pub del_cached : Key → State → State
  del_cached k s = if o.cache_down then s else record s { cache = del k s.cache }

  abbrev pub bound : Option Bool → Result (Unit {0})
  bound none = err (http 500 "Системная ошибка аутентификации")
  bound (some true) = ok tt
  bound (some false) = err err_invalid_credentials

  -- `authenticateInAD`.
  unfoldable pub authenticate_in_ad : String → String → Result (Unit {0})
  authenticate_in_ad username password =
      if o.ldap_reached
      then bound (o.ldap_bind username password)
      else err (http 500 "Ошибка подключения к сервису аутентификации")

  abbrev pub is_invalid_credentials_error : Error → Bool
  is_invalid_credentials_error (http code message) =
      code == 401 && str_eq message "Неверные учетные данные"
  is_invalid_credentials_error _ = false

  abbrev pub told : Result (Unit {0}) → Result Bool
  told (ok u) = ok true
  told (err e) = if is_invalid_credentials_error e then ok false else err e

  abbrev pub ad_username : String → Option String → String
  ad_username login none = login
  ad_username login (some name) = if is_empty name then login else name

  abbrev pub is_system_root : String → Account → Bool
  is_system_root login a =
      not (is_empty (o.lower o.system_root_login))
      && (str_eq login (o.lower o.system_root_login)
          || str_eq a.email (o.lower o.system_root_login))

  -- The three ways to prove who one is.
  unfoldable pub authenticate : String → String → Account → Result Bool
  unfolding authenticate_in_ad
  authenticate login password a =
      if is_system_root login a
      then ok (o.compare_passwords a.password password)
      else if o.ldap_enabled
      then told (authenticate_in_ad (ad_username login a.username) password)
      else ok (o.compare_passwords a.password password)

  abbrev pub admit : Account → State → Answer × State
  admit a s =
      if a.must_change_password
      then (
        change_password (o.uuid s.tokens),
        set_cached (force_change_token (o.uuid s.tokens)) (format_uint a.id)
            (record s { tokens = suc (s.tokens) }),
      )
      else (welcome a, s)

  abbrev pub authenticated : Account → State → Result Bool → Answer × State
  authenticated a s (err e) = (refused e, s)
  authenticated a s (ok false) = (refused err_invalid_credentials, s)
  authenticated a s (ok true) = admit a s

  abbrev pub found_user : String → String → State → Option Account → Answer × State
  found_user login password s none = (refused err_invalid_credentials, s)
  found_user login password s (some a) =
      if str_eq a.status_code "ACTIVE"
      then authenticated a s (authenticate login password a)
      else (refused err_user_disabled, s)

  -- `Login`.
  unfoldable pub login : String → String → State → Answer × State
  unfolding authenticate
  login input password s = found_user (o.lower input) password s (find_user s (o.lower input))

  abbrev tell : Option ℕ → String → State → State
  tell none code s = s
  tell (some chat) code s =
      if chat == 0
      then s
      else record s { messages = s.messages ++ (chat, concat "Код: " code) ∷ [] }

  abbrev send_code : String → State → Option Account → State
  send_code login s none = s
  send_code login s (some a) = tell a.telegram_chat_id (o.reset_code s.tokens) (
      set_cached (reset_phone_code login) (o.reset_code s.tokens)
        (record s { tokens = suc (s.tokens) }))

  -- `RequestPasswordReset`, which never fails. A login that nobody has gets a code too.
  unfoldable pub request_password_reset : String → State → State
  request_password_reset input s = send_code (o.lower input) s (found_pointer s (o.lower input))

  abbrev or_empty : Option String → String
  or_empty none = ""
  or_empty (some v) = v

  -- The pointer is not looked at before its id is read.
  abbrev give_token : State → Option Account → Result String × State
  give_token s none = (err panic, s)
  give_token s (some a) = (
    ok (o.uuid s.tokens),
    set_cached (verify_phone (o.uuid s.tokens)) (format_uint a.id)
        (record s { tokens = suc (s.tokens) }),
  )

  -- `VerifyResetCode`.
  unfoldable pub verify_reset_code : String → String → State → Result String × State
  verify_reset_code input code s =
      let stored = or_empty (cached (reset_phone_code (o.lower input)) s) in
      if is_empty stored || not (str_eq stored code)
      then (err err_invalid_credentials, s)
      else give_token s (found_pointer s (o.lower input))

  abbrev pub stored_password :
      Bool → ℕ → String → String → State → Option Error → Result (Unit {0}) × State
  stored_password force id hash token s (some e) = (err e, del_cached (key_of_token force token) s)
  stored_password force id hash token s none =
      (ok tt, del_cached (key_of_token force token) (write_password force id hash s))

  abbrev pub hashed : Bool → ℕ → String → State → Option String → Result (Unit {0}) × State
  hashed force id token s none = (err (http 500 "Внутренняя ошибка сервера"), s)
  hashed force id token s (some hash) = stored_password force id hash token s o.write_fault

  abbrev pub for_user : Bool → String → String → State → Option ℕ → Result (Unit {0}) × State
  for_user force token new s none = (err err_invalid_credentials, s)
  for_user force token new s (some id) = hashed force id token s (o.hash_password new)

  abbrev pub with_token :
      String → String → State → Option String → Option String → Result (Unit {0}) × State
  with_token token new s (some text) forced = for_user false token new s (parse_uint text)
  with_token token new s none (some text) = for_user true token new s (parse_uint text)
  with_token token new s none none = (err err_invalid_credentials, s)

  -- `ResetPassword`.
  unfoldable pub reset_password : String → String → State → Result (Unit {0}) × State
  reset_password token new s =
      with_token token new s (cached (verify_phone token) s) (cached (force_change_token token) s)
