-- ===== src/AuthService/Auth/Resending.antt =====
-- A new code for an account that is not active yet.
use backend_core_platform.Common.Errors.ErrorCodes
use backend_core_platform.Common.Errors.{ok, fail}
use backend_core_platform.AuthService.Sessions.{User, Fresh}
use backend_core_platform.AuthService.Accounts.{
  EmailOtp, find_one_by_email, create_or_update_email_otp, is_otp_of, has_email, renewed,
}
use backend_core_platform.AuthService.Accounts.Holding.{
  HasAccount, account_found, otp_found, verify_register_account,
}
use backend_core_platform.AuthService.Auth.{
  Env, Tables, Store, UserRegisteredEvent, user_registered,
}
use backend_core_platform.AuthService.Auth.Signup.{accounts_of, resent_event, resend_code, verify}
use backend_core_platform.Base.{
  ℕ, ◌+◌, ◌<◌, String, ◌≡◌, refl, ◌≢◌, inl, inr, true, false, ◌&&◌, none, some, [], ◌∷◌, arith,
  eq_iff, eq_refl, ltb, ◌==◌, Eq_ℕ, Eq_String, if◌then◌else◌, Bool-cases, Option-cases,
}

module _ (env : Env) (tables : Tables) where
  abbrev Holds : User → EmailOtp → Store tables → Type 0
  Holds u o st =
      HasAccount env.passwords env.normalize tables.users tables.otps u o
        (accounts_of env tables st)

  module _ (u : User) (o : EmailOtp) (at : Fresh) (code : String) (st : Store tables)
      (has : Holds u o st) where
    abbrev hash : String
    hash = env.passwords.hash at.salt code

    abbrev new_code : EmailOtp
    new_code = renewed hash (at.now + 900000) o

    abbrev resent : Store tables
    resent = record {
      user_db = st.user_db;
      otp_db = tables.otps.update o.id (renewed hash (at.now + 900000)) st.otp_db;
      reset_db = st.reset_db;
      token_db = st.token_db;
    }

    abbrev event : UserRegisteredEvent
    event = resent_event env tables u (env.encrypt hash)

    resend_code_account :
        u.is_active ≡ false
        → env.registered_error event ≡ none
        → resend_code env tables at code u.email st ≡ (record {
          store = resent;
          cookies = [];
          events = user_registered event ∷ [];
          result = ok "Verification code resent";
        })
    unfolding resend_code find_one_by_email create_or_update_email_otp
    resend_code_account inactive passes =
        let found : tables.users.find_first (has_email u.email) st.user_db ≡ some u = ground (
          arith,
          account_found env.passwords env.normalize tables.users tables.otps u o
              (accounts_of env tables st) has (has_email u.email)
              (λ s m. ground (arith, m, eq_iff s.email u.email)),
          eq_refl u.email,
        ) in
        let otp : tables.otps.find_first (is_otp_of u.id) st.otp_db ≡ some o = ground (
          arith,
          otp_found env.passwords env.normalize tables.users tables.otps u o
              (accounts_of env tables st) has (is_otp_of u.id)
              (λ s m. ground (arith, m, eq_iff s.user_id u.id)),
          has.otp_mine,
          eq_iff o.user_id u.id,
        ) in
        rw (found, resend_code)
          (rw inactive (rw (passes, resend_code) (rw (otp, create_or_update_email_otp) refl)))

    resent-HasAccount : Holds u new_code resent
    resent-HasAccount = record {
      stored = has.stored;
      only_user = has.only_user;
      otp_stored = ground (
        arith,
        tables.otps.find-update o.id o.id (renewed hash (at.now + 900000)) st.otp_db (λ x. refl),
        has.otp_stored,
        eq_refl o.id,
      );
      otp_mine = has.otp_mine;
      only_otp = λ i s held mine. elim (Option-cases (tables.otps.find i st.otp_db)) [
        | inl gone ↦ ground (
          arith,
          tables.otps.find-update i o.id (renewed hash (at.now + 900000)) st.otp_db (λ x. refl),
          gone,
          held,
        )
        | inr (r, there) ↦ has.only_otp i r there (
            ground (
              arith,
              tables.otps.find-update i o.id (renewed hash (at.now + 900000)) st.otp_db (λ x. refl),
              there,
              held,
              mine,
            ))
      ];
    }

    verify_resent :
        (now : ℕ) (email code' : String)
        → env.normalize email ≡ u.email
        → u.is_active ≡ false
        → (verify env tables now email code' resent).result ≡ (
            if hash == code' && ltb now (at.now + 900000)
            then ok true
            else fail ErrorCodes.validation_error 401 "Invalid code")
    unfolding verify
    verify_resent now email code' same inactive =
        let verdict =
          verify_register_account env.passwords env.normalize tables.users tables.otps u new_code
            (accounts_of env tables resent) resent-HasAccount now email code' same inactive in
        elim (Bool-cases (hash == code' && ltb now (at.now + 900000))) [
          | inl right ↦ rw (verdict, verify) (rw right refl)
          | inr wrong ↦ rw (verdict, verify) (rw wrong refl)
        ]

    -- Where the account is not active and the schema passes the event: `resendCode` for the stored
    -- address sends one event with the encryption of the new code's hash. Within a quarter of an
    -- hour from then that hash is taken by `verify`, while any other code, such as the one that was
    -- sent before, is refused with 401 as invalid.
    pub resend_code-verify :
        (now : ℕ) (email old : String)
        → env.normalize email ≡ u.email
        → u.is_active ≡ false
        → env.registered_error (resent_event env tables u (env.encrypt hash)) ≡ none
        → now < at.now + 900000
        → old ≢ env.passwords.hash at.salt code
        → let sent = resend_code env tables at code u.email st in
          (sent.events ≡ user_registered (resent_event env tables u (env.encrypt hash)) ∷ [])
          × ((verify env tables now email hash sent.store).result ≡ ok true)
          × ((verify env tables now email old sent.store).result
              ≡ fail ErrorCodes.validation_error 401 "Invalid code")
    resend_code-verify now email old same inactive passes fresh apart =
        rw (resend_code_account inactive passes) (
          refl,
          ground (arith, verify_resent now email hash same inactive, fresh, eq_refl hash),
          ground (arith, verify_resent now email old same inactive, eq_iff hash old, apart),
        )
