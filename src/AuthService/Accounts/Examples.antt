-- ===== src/AuthService/Accounts/Examples.antt =====
-- Concrete accounts, on tables in memory; normalising takes one address in capitals to small letters.
use backend_core_platform.External.Table.{Table}
use backend_core_platform.External.Table.Memory
use backend_core_platform.External.Table.Memory.{memory}
use backend_core_platform.Common.Errors.{Result, ok}
use backend_core_platform.AuthService.Passwords.{Passwords}
use backend_core_platform.AuthService.Sessions.{User, user_id_of}
use backend_core_platform.AuthService.Accounts.{
  EmailOtp, otp_id, State, CreateUserDto, Draws, CreateUserResponse, create_user, verify_register,
  check_active_email, activated, new_user, not_active, bad_request_exception, not_found_exception,
}
use backend_core_platform.AuthService.Accounts.Activation.{
  create_user-verify_register, create_user-verify_register_expired,
}
use backend_core_platform.Base.{
  ℕ, String, ◌≡◌, refl, ◌≢◌, Bool, true, none, some, [], arith, eq_iff, eq_refl, ◌==◌, Eq_ℕ,
  Eq_String, if◌then◌else◌, concat,
}

abbrev users : Table User user_id_of
users = memory user_id_of

abbrev otps : Table EmailOtp otp_id
otps = memory otp_id

abbrev passwords : Passwords
passwords = record {
  hash = λ salt p. concat p "#";
  verify = λ hash p. hash == concat p "#";
  verify-hash = λ salt p. eq_refl (concat p "#");
}

abbrev normalize : String → String
normalize e = if e == "ANN@x.org" then "ann@x.org" else e

abbrev encrypt : String → String
encrypt s = concat "@" s

abbrev dto : CreateUserDto
dto = record { email = "ANN@x.org"; password = "secret"; name = some "Ann"; phone = none }

abbrev draws : Draws
draws = record {
  now = 1000;
  user_id = "u1";
  otp_id = "o1";
  password_salt = "";
  code_salt = "";
  code = "k7";
}

abbrev Accounts : Type 0
Accounts = State passwords normalize users otps

abbrev nobody : Accounts
nobody = record { user_db = []; otp_db = [] }

abbrev registered : Accounts × Result CreateUserResponse
registered = create_user passwords normalize users otps encrypt draws dto nobody

abbrev verify : ℕ → String → Accounts → Accounts × Result Bool
verify now code st = verify_register passwords normalize users otps now "ann@x.org" code st

abbrev check : Accounts → Result User
check st = check_active_email passwords normalize users otps "ann@x.org" st.user_db

no_user : (i : String) (s : User) → users.find i nobody.user_db ≡ some s → s.email ≢ "ann@x.org"
unfolding Memory.find
no_user i s e = cc

no_otp : (i : String) (s : EmailOtp) → otps.find i nobody.otp_db ≡ some s → s.user_id ≢ "u1"
unfolding Memory.find
no_otp i s e = cc

create_user-verify_register_example :
    (registered.1
      ≡ ok (record { user_id = "u1"; email = "ann@x.org"; code = "@k7#"; created_at = 1000 }))
    × (check registered.0 ≡ not_active)
    × (verify 2000 "k7" registered.0 ≡ (registered.0, bad_request_exception "Invalid code"))
    × ((verify 2000 "k7#" registered.0).1 ≡ ok true)
    × (check (verify 2000 "k7#" registered.0).0
        ≡ ok (activated (new_user passwords draws "ann@x.org" dto)))
    × (verify 2000 "k7#" (verify 2000 "k7#" registered.0).0 ≡ (
      (verify 2000 "k7#" registered.0).0,
      not_found_exception "User not found Or already verified",
    ))
create_user-verify_register_example =
    create_user-verify_register passwords normalize users otps encrypt draws dto nobody no_user
      no_otp 2000 "ann@x.org" "k7" refl (omega arith) (ground (arith, eq_iff "k7" "k7#"))

create_user-verify_register_expired_example :
    (verify 901000 "k7#" registered.0 ≡ (registered.0, bad_request_exception "Invalid code"))
    × (check registered.0 ≡ not_active)
create_user-verify_register_expired_example =
    create_user-verify_register_expired passwords normalize users otps encrypt draws dto nobody
      no_user no_otp 901000 "ann@x.org" "k7#" refl (omega arith)
