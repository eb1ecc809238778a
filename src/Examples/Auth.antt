-- ===== src/Examples/Auth.antt =====
-- The theorems on logins and new passwords, applied.
use request_system.Common.{
  ℕ, String, Bool, true, false, Option, none, some, List, [], ◌∷◌, ◌≡◌, ◌↔◌, refl, str_eq, inr,
}
use request_system.Errors.{ok, err}
use request_system.Auth.{
  Account, verify_phone, State, Outside, welcome, err_invalid_credentials, find_user, login,
  reset_password,
}
use request_system.Auth.Login.{vouched, login_iff}
use request_system.Auth.Reset.{Renewed, reset_password_once}

abbrev root : Account
root = record {
  id = 1;
  email = "admin@local";
  username = none;
  password = "#secret";
  status_code = "ACTIVE";
  must_change_password = false;
  telegram_chat_id = none;
}

abbrev clerk : Account
clerk = record root { id = 2; email = "clerk@local"; username = some "clerk" }

abbrev before : State
before = record {
  accounts = root ∷ clerk ∷ [];
  cache = (verify_phone "t-0", "2") ∷ [];
  tokens = 1;
  messages = [];
}

abbrev outside : Outside
outside = record {
  lower = λ s. s;
  system_root_login = "admin@local";
  compare_passwords = λ hash s. str_eq hash "#secret";
  hash_password = λ s. some "#new";
  ldap_enabled = true;
  ldap_reached = true;
  ldap_bind = λ name s. some (str_eq name "clerk");
  uuid = λ n. "t-1";
  reset_code = λ n. "0000";
  reads_fail = false;
  write_fault = none;
  cache_down = false;
}

login_iff_example : (login outside "clerk" "pass" before ≡ (welcome clerk, before)) ↔ (
    (find_user outside before "clerk" ≡ some clerk)
    × (str_eq "ACTIVE" "ACTIVE" ≡ true)
    × (vouched outside "clerk" "pass" clerk ≡ true)
    × (◌≡◌ {A = Bool} false false))
login_iff_example = login_iff outside "clerk" "pass" clerk before

abbrev after : State
after = (reset_password outside "t-0" "new" before).1

resets : reset_password outside "t-0" "new" before ≡ (ok tt, after)
unfolding reset_password request_system.Common.parse_uint
resets = refl

reset_password_once_example :
    Renewed outside "t-0" "new" before after
    × ((later : String)
        → (reset_password outside "t-0" later after).0 ≡ err err_invalid_credentials)
reset_password_once_example =
    reset_password_once outside "t-0" "new" before after refl (inr refl) resets
