-- ===== src/AuthService/Auth/Examples.antt =====
-- Concrete flows, on tables in memory. Tokens are told apart by the time of their signing.

use backend_core_platform.External.Table.Memory
use backend_core_platform.External.Table.Memory.{memory}
use backend_core_platform.Common.Errors.ErrorCodes
use backend_core_platform.Common.Errors.{ok, throws, error, fail}
use backend_core_platform.AuthService.Passwords.{Passwords}
use backend_core_platform.AuthService.Sessions.{
  User, user_id_of, RefreshToken, token_id, DataDevice, Fresh, new_token,
}
use backend_core_platform.AuthService.Sessions.OnePerDevice.{IsSingle}
use backend_core_platform.AuthService.Sessions.Rotation.{HasSession}
use backend_core_platform.AuthService.Accounts.{EmailOtp, otp_id, new_otp, find_one_by_email, Draws}
use backend_core_platform.AuthService.Accounts.Holding.{HasAccount}
use backend_core_platform.AuthService.PasswordResets.{
  PasswordReset, reset_id, with_password, reset_password,
}
use backend_core_platform.AuthService.Auth.{Env, Tables, Store, Reply, Request, user_registered}
use backend_core_platform.AuthService.Auth.Login.{
  LoginResponse, token_user, claims_of, login_response, refresh,
}
use backend_core_platform.AuthService.Auth.Signup.{accounts_of, resent_event, resend_code, verify}
use backend_core_platform.AuthService.Auth.Recovery.{
  forgot_password, forgot_password_reset, after_reset,
}
use backend_core_platform.AuthService.Auth.Refreshing.{refresh_rotates}
use backend_core_platform.AuthService.Auth.Ending.{Ends, refresh-Ends}
use backend_core_platform.AuthService.Auth.Resetting.{
  IsDiscreet, forgot_password-IsDiscreet, forgot_password_reset-refresh,
}
use backend_core_platform.AuthService.Auth.Consistency.{IsConsistent}
use backend_core_platform.AuthService.Auth.Invariant.{
  Flow, registers, refreshes, forgets, logs_out_all, steps, steps-IsConsistent,
}
use backend_core_platform.AuthService.Auth.Resending.{resend_code-verify}
use backend_core_platform.Base.{
  String, ◌≡◌, refl, sym, ◌∙◌, true, false, none, some, List, [], ◌∷◌, arith, eq_iff, eq_refl, ◌==◌,
  Eq_ℕ, Eq_String, if◌then◌else◌, is_empty, concat,
}

abbrev tables : Tables
tables = record {
  users = memory user_id_of;
  otps = memory otp_id;
  resets = memory reset_id;
  tokens = memory token_id;
}

abbrev passwords : Passwords
passwords = record {
  hash = λ salt p. concat p "#";
  verify = λ hash p. hash == concat p "#";
  verify-hash = λ salt p. eq_refl (concat p "#");
}

abbrev eve : User
eve = record {
  id = "u1";
  email = "eve@x.org";
  password_hash = "lost#";
  perm_version = 3;
  name = none;
  phone = none;
  is_active = true;
  created_at = 0;
  updated_at = 0;
}

abbrev env : Env
env = record {
  passwords = passwords;
  normalize = λ e. e;
  encrypt = λ s. concat "@" s;
  sign = λ claims ttl now. if now == 1000 then "j1" else "j2";
  verify_jwt = λ now token.
      if is_empty token
      then throws (error "jwt must be provided")
      else ok (claims_of (token_user eve));
  to_iso_string = λ t. "1970-01-01T00:00:00.000Z";
  registered_error = λ e. none;
  reset_error = λ e. none;
  parse_agent = λ agent. (some "Firefox", some "Linux");
  jwt_refresh_expires_in = none;
  jwt_expires_in = none;
}

abbrev at_refresh : Fresh
at_refresh = record { now = 1000; id = "t2"; salt = "" }

abbrev at_later : Fresh
at_later = record { now = 5000; id = "t3"; salt = "" }

abbrev request : Request
request = record { forwarded_for = none; ip = some "10.0.0.1"; user_agent = none }

abbrev laptop : DataDevice
laptop = record { device_name = some "Firefox on Linux"; ip = some "10.0.0.1"; user_agent = none }

abbrev session : RefreshToken
session = new_token "t1" "u1" "j0#" "d1" laptop 2592000000

abbrev reset : PasswordReset
reset = record { id = "p1"; user_id = "u1"; token_hash = "k#"; expires_at = 900000; used = true }

abbrev store : Store tables
store = record { user_db = eve ∷ []; otp_db = []; reset_db = reset ∷ []; token_db = session ∷ [] }

found_session :
    (i : String) (r : RefreshToken) → tables.tokens.find i store.token_db ≡ some r → i ≡ "t1"
unfolding Memory.find
found_session i r e = ground (arith, e, eq_iff "t1" i)

store-IsSingle : IsSingle passwords tables.tokens store.token_db
store-IsSingle i j user_id device_id r s held held' open_r open_s =
    found_session i r held ∙ sym (found_session j s held')

has_session : HasSession passwords tables.tokens "u1" "d1" session store.token_db
unfolding Memory.find
has_session = record { stored = refl; open_now = refl; single = store-IsSingle }

abbrev refreshed : Reply tables LoginResponse
refreshed = refresh env tables at_refresh "j0" "d1" request store

refresh_rotates_example :
    (refreshed.result ≡ ok (login_response env at_refresh (token_user eve)))
    × ((refresh env tables at_later "j0" "d1" request refreshed.store).result
        ≡ fail ErrorCodes.auth_refresh_token_invalid 401 "Invalid refresh token")
    × ((refresh env tables at_later "j1" "d1" request refreshed.store).result
        ≡ ok (login_response env at_later (token_user eve)))
unfolding Memory.find
refresh_rotates_example =
    refresh_rotates env tables eve "d1" session at_refresh at_later "j0" request request store
      has_session refl (omega arith) refl refl (omega arith) refl refl refl

refresh-Ends_example :
    Ends env tables at_refresh "j0" "d1" store
      (refresh env tables at_refresh "j0" "d1" request store)
refresh-Ends_example = refresh-Ends env tables at_refresh "j0" "d1" request store

forgot_password-IsDiscreet_example :
    IsDiscreet env tables store
      (forgot_password env tables at_refresh "tok" false "eve@x.org" store)
forgot_password-IsDiscreet_example =
    forgot_password-IsDiscreet env tables at_refresh "tok" false "eve@x.org" store

abbrev after_change : Reply tables String
after_change = forgot_password_reset env tables 2000 "" "eve@x.org" "k" "secret" store

forgot_password_reset-refresh_example :
    (tables.users.find "u1" after_change.store.user_db ≡ some (with_password "secret#" eve))
    × ((refresh env tables at_later "j0" "d1" request after_change.store).result
        ≡ fail ErrorCodes.auth_refresh_token_invalid 401 "Invalid refresh token")
unfolding Memory.find_first find_one_by_email forgot_password_reset reset_password after_reset
forgot_password_reset-refresh_example =
    forgot_password_reset-refresh env tables 2000 "" "eve@x.org" "k" "secret"
      "Password reset success" eve at_later "j0" "d1" request (claims_of (token_user eve)) store
      refl refl refl refl

abbrev bob : User
bob = record eve { id = "u2"; email = "bob@x.org"; is_active = false }

abbrev sent_code : EmailOtp
sent_code = new_otp "o2" "u2" "k1#" 900000

abbrev waiting : Store tables
waiting = record { user_db = bob ∷ []; otp_db = sent_code ∷ []; reset_db = []; token_db = [] }

waiting-HasAccount :
    HasAccount env.passwords env.normalize tables.users tables.otps bob sent_code
      (accounts_of env tables waiting)
unfolding Memory.find
waiting-HasAccount = record {
  stored = refl;
  only_user = λ i s held same. ground (arith, held, eq_iff "u2" i);
  otp_stored = refl;
  otp_mine = refl;
  only_otp = λ i s held mine. ground (arith, held, eq_iff "o2" i);
}

abbrev resent : Reply tables String
resent = resend_code env tables at_refresh "k2" "bob@x.org" waiting

resend_code-verify_example :
    (resent.events ≡ user_registered (resent_event env tables bob "@k2#") ∷ [])
    × ((verify env tables 2000 "bob@x.org" "k2#" resent.store).result ≡ ok true)
    × ((verify env tables 2000 "bob@x.org" "k1#" resent.store).result
        ≡ fail ErrorCodes.validation_error 401 "Invalid code")
resend_code-verify_example =
    resend_code-verify env tables bob sent_code at_refresh "k2" waiting waiting-HasAccount 2000
      "bob@x.org" "k1#" refl refl refl (omega arith) (ground (arith, eq_iff "k1#" "k2#"))

found_eve : (i : String) (r : User) → tables.users.find i store.user_db ≡ some r → i ≡ "u1"
unfolding Memory.find
found_eve i r e = ground (arith, e, eq_iff "u1" i)

store-IsConsistent : IsConsistent env tables store
store-IsConsistent = record {
  sound = record {
    unique = λ i j r s held held' same. found_eve i r held ∙ sym (found_eve j s held');
    normal = λ i r held. refl;
  };
  single = store-IsSingle;
}

abbrev draws : Draws
draws = record {
  now = 3000;
  user_id = "u2";
  otp_id = "o1";
  password_salt = "";
  code_salt = "";
  code = "k7";
}

abbrev flows : List (Flow env tables)
flows =
    refreshes at_refresh "j0" "d1" request
    ∷ registers draws
        (record { email = "ann@x.org"; password = "secret"; name = none; phone = none }) "e1"
    ∷ forgets at_later "tok" false "eve@x.org"
    ∷ logs_out_all 6000 "u1"
    ∷ []

steps-IsConsistent_example : IsConsistent env tables (steps env tables flows store)
steps-IsConsistent_example =
    steps-IsConsistent env tables flows store (λ e. refl) store-IsConsistent
