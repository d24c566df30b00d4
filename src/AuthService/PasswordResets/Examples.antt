-- ===== src/AuthService/PasswordResets/Examples.antt =====
-- A concrete reset, on tables in memory.
use backend_core_platform.External.Table.{Table}
use backend_core_platform.External.Table.Memory
use backend_core_platform.External.Table.Memory.{memory}
use backend_core_platform.Common.Errors.{Result, ok}
use backend_core_platform.AuthService.Passwords.{Passwords}
use backend_core_platform.AuthService.Sessions.{User, user_id_of, Fresh}
use backend_core_platform.AuthService.PasswordResets.{
  PasswordReset, reset_id, State, with_password, bad_request, create_password_reset,
  verify_password_reset, reset_password,
}
use backend_core_platform.AuthService.PasswordResets.Flow.{
  reset_password_once, mailed_token_refused,
}
use backend_core_platform.Base.{
  String, ◌≡◌, refl, ◌≢◌, Bool, true, none, some, [], ◌∷◌, arith, eq_refl, ◌==◌, Eq_ℕ, Eq_String,
  concat,
}

abbrev users : Table User user_id_of
users = memory user_id_of

abbrev resets : Table PasswordReset reset_id
resets = memory reset_id

abbrev passwords : Passwords
passwords = record {
  hash = λ salt p. concat p "#";
  verify = λ hash p. hash == concat p "#";
  verify-hash = λ salt p. eq_refl (concat p "#");
}

abbrev ann : User
ann = record {
  id = "u1";
  email = "ann@x.org";
  password_hash = "lost#";
  perm_version = 1;
  name = none;
  phone = none;
  is_active = true;
  created_at = 0;
  updated_at = 0;
}

abbrev forgotten : State passwords users resets
forgotten = record { user_db = ann ∷ []; reset_db = [] }

abbrev at_request : Fresh
at_request = record { now = 1000; id = "p1"; salt = "" }

abbrev encrypt : String → String
encrypt s = concat "@" s

nothing :
    (i : String) (s : PasswordReset) → resets.find i forgotten.reset_db ≡ some s → s.user_id ≢ "u1"
unfolding Memory.find
nothing i s e = cc

abbrev requested : State passwords users resets
requested = (create_password_reset passwords users resets encrypt at_request "u1" "tok" forgotten).0

abbrev verified : State passwords users resets × Result Bool
verified = verify_password_reset passwords users resets 2000 "u1" "tok" requested

abbrev changed : State passwords users resets × Result Bool
changed = reset_password passwords users resets "" "u1" "secret" "tok" verified.0

reset_password_once_example :
    (verified.1 ≡ ok true)
    × (changed.1 ≡ ok true)
    × (users.find "u1" changed.0.user_db ≡ some (with_password "secret#" ann))
    × (reset_password passwords users resets "" "u1" "again" "tok" changed.0
        ≡ (changed.0, bad_request "The code has not been verified"))
unfolding Memory.find
reset_password_once_example =
    reset_password_once passwords users resets "u1" encrypt at_request 2000 "tok" "" "secret" ""
      "again" ann forgotten nothing (omega arith) refl

mailed_token_refused_example :
    verify_password_reset passwords users resets 2000 "u1" "@tok#" requested
    ≡ (requested, bad_request "Invalid code")
unfolding create_password_reset
mailed_token_refused_example =
    mailed_token_refused passwords users resets "u1" encrypt at_request 2000 "tok" forgotten nothing
      (omega arith) refl
