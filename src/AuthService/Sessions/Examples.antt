-- ===== src/AuthService/Sessions/Examples.antt =====
-- Concrete sessions, on a table in memory. The hash of a token is the token behind its salt.
use backend_core_platform.External.Table.{Table}
use backend_core_platform.External.Table.Memory
use backend_core_platform.External.Table.Memory.{memory}
use backend_core_platform.AuthService.Passwords.{Passwords}
use backend_core_platform.AuthService.Sessions.{
  User, RefreshToken, token_id, DataDevice, invalid_token, Fresh, new_token, find_by_refresh_token,
  logout_device,
}
use backend_core_platform.AuthService.Sessions.OnePerDevice.{IsSingle}
use backend_core_platform.AuthService.Sessions.Rotation.{HasSession}
use backend_core_platform.AuthService.Sessions.Logout.{logout_device_refuses}
use backend_core_platform.Base.{
  String, ◌≡◌, refl, sym, ◌∙◌, true, Option, none, some, [], ◌∷◌, arith, eq_iff, eq_refl, ◌==◌,
  Eq_ℕ, Eq_String, if◌then◌else◌,
}

abbrev tokens : Table RefreshToken token_id
tokens = memory token_id

-- A hash whose salt is not used.
abbrev passwords : Passwords
passwords = record {
  hash = λ salt p. p;
  verify = λ hash p. hash == p;
  verify-hash = λ salt p. eq_refl p;
}

abbrev laptop : DataDevice
laptop = record { device_name = some "Firefox on Linux"; ip = some "10.0.0.1"; user_agent = none }

abbrev eve : User
eve = record {
  id = "u1";
  email = "eve@x.org";
  password_hash = "";
  perm_version = 3;
  name = none;
  phone = none;
  is_active = true;
  created_at = 0;
  updated_at = 0;
}

abbrev user_of : String → Option User
user_of id = if id == "u1" then some eve else none

abbrev at_login : Fresh
at_login = record { now = 1000; id = "t1"; salt = "" }

abbrev at_refresh : Fresh
at_refresh = record { now = 5000; id = "t2"; salt = "" }

abbrev session : RefreshToken
session = new_token "t1" "u1" "old" "d1" laptop 2592001000

abbrev logged_in : tokens.Db
logged_in = session ∷ []

found_session : (i : String) (r : RefreshToken) → tokens.find i logged_in ≡ some r → i ≡ "t1"
unfolding Memory.find
found_session i r e = ground (arith, e, eq_iff "t1" i)

logged_in-IsSingle : IsSingle passwords tokens logged_in
logged_in-IsSingle i j user_id device_id r s held held' open_r open_s =
    found_session i r held ∙ sym (found_session j s held')

has_session : HasSession passwords tokens "u1" "d1" session logged_in
unfolding Memory.find
has_session = record { stored = refl; open_now = refl; single = logged_in-IsSingle }

logout_device_refuses_example :
    (find_by_refresh_token passwords tokens 6000 user_of "u1" 3 "newer" "d1"
        (logout_device passwords tokens 5500 "d1" "u1" "old" logged_in).0
      ≡ invalid_token)
    × (logout_device passwords tokens 5500 "d1" "u1" "guess" logged_in ≡ (logged_in, 0))
logout_device_refuses_example =
    logout_device_refuses passwords tokens 5500 6000 user_of "u1" 3 "old" "guess" "newer" "d1"
      session logged_in has_session refl refl
