-- ===== src/AuthService/Accounts/Holding.antt =====
-- An account that stands alone in the tables, with its code.
use backend_core_platform.External.Table.{Table}
use backend_core_platform.External.Table.Queries.{find_first_only}
use backend_core_platform.Common.Errors.{ok}
use backend_core_platform.AuthService.Passwords.{Passwords}
use backend_core_platform.AuthService.Sessions.{User, user_id_of}
use backend_core_platform.AuthService.Accounts.{
  EmailOtp, otp_id, State, verify_register, check_active_email, has_status, is_valid_code,
  activated, used, not_active, bad_request_exception, not_found_exception,
}
use backend_core_platform.Base.{
  ℕ, String, ◌≡◌, refl, inl, inr, Bool, true, false, ◌&&◌, none, some, arith, eq_iff, eq_refl, ltb,
  ◌==◌, Eq_ℕ, Eq_String, if◌then◌else◌, Bool-cases, Option-cases,
}

module _ (passwords : Passwords) (normalize : String → String) (users : Table User user_id_of)
    (otps : Table EmailOtp otp_id) where
  abbrev St : Type 0
  St = State passwords normalize users otps

  -- The account `u` is the only one with its address, and `o` is the only code of it.
  pub record HasAccount (u : User) (o : EmailOtp) (st : St) : Type 0 where
    pub stored : users.find u.id st.user_db ≡ some u
    pub only_user :
        (i : String) (s : User) → users.find i st.user_db ≡ some s → s.email ≡ u.email → i ≡ u.id
    pub otp_stored : otps.find o.id st.otp_db ≡ some o
    pub otp_mine : o.user_id ≡ u.id
    pub only_otp :
        (i : String) (s : EmailOtp) → otps.find i st.otp_db ≡ some s → s.user_id ≡ u.id → i ≡ o.id

  module _ (u : User) (o : EmailOtp) (st : St) (has : HasAccount u o st) where
    pub account_found :
        (p : User → Bool)
        → ((s : User) → p s ≡ true → s.email ≡ u.email)
        → users.find_first p st.user_db ≡ (if p u then some u else none)
    account_found p narrows =
        find_first_only users p u st.user_db has.stored
          (λ i s held meets. has.only_user i s held (narrows s meets))

    pub otp_found :
        (p : EmailOtp → Bool)
        → ((s : EmailOtp) → p s ≡ true → s.user_id ≡ u.id)
        → otps.find_first p st.otp_db ≡ (if p o then some o else none)
    otp_found p narrows =
        find_first_only otps p o st.otp_db has.otp_stored
          (λ i s held meets. has.only_otp i s held (narrows s meets))

    status_found :
        (b : Bool)
        → users.find_first (has_status u.email b) st.user_db
          ≡ (if has_status u.email b u then some u else none)
    status_found true =
        account_found (has_status u.email true) (λ s m. ground (arith, m, eq_iff s.email u.email))
    status_found false =
        account_found (has_status u.email false) (λ s m. ground (arith, m, eq_iff s.email u.email))

    pub check_active_email_account :
        check_active_email passwords normalize users otps u.email st.user_db
        ≡ (if u.is_active then ok u else not_active)
    unfolding check_active_email
    check_active_email_account =
        ground (arith, status_found true, eq_refl u.email, Bool-cases u.is_active)

    abbrev pub after_activation : St
    after_activation = record {
      user_db = users.update u.id activated st.user_db;
      otp_db = otps.update o.id used st.otp_db;
    }

    pub verify_register_account :
        (now : ℕ) (email code : String)
        → normalize email ≡ u.email
        → u.is_active ≡ false
        → verify_register passwords normalize users otps now email code st ≡ (
            if o.code_hash == code && ltb now o.expires_at
            then (after_activation, ok true)
            else (st, bad_request_exception "Invalid code"))
    unfolding verify_register
    verify_register_account now email code same inactive =
        let found : users.find_first (has_status (normalize email) false) st.user_db ≡ some u =
          rw same (ground (arith, status_found false, eq_refl u.email, inactive)) in
        let code_found =
          otp_found (is_valid_code now u.id code)
            (λ s m. ground (arith, m, eq_iff s.user_id u.id)) in
        elim (Bool-cases (o.code_hash == code && ltb now o.expires_at)) [
          | inl right ↦
              let hit : otps.find_first (is_valid_code now u.id code) st.otp_db ≡ some o =
                ground (arith, code_found, right, has.otp_mine, eq_iff o.user_id u.id) in
              rw (found, verify_register) (rw (hit, verify_register) (rw right refl))
          | inr wrong ↦
              let miss : otps.find_first (is_valid_code now u.id code) st.otp_db ≡ none =
                ground (arith, code_found, wrong) in
              rw (found, verify_register) (rw (miss, verify_register) (rw wrong refl))
        ]

    pub verify_register_active :
        (now : ℕ) (email code : String)
        → normalize email ≡ u.email
        → u.is_active ≡ true
        → verify_register passwords normalize users otps now email code st
          ≡ (st, not_found_exception "User not found Or already verified")
    unfolding verify_register
    verify_register_active now email code same active =
        let missing : users.find_first (has_status (normalize email) false) st.user_db ≡ none =
          rw same (ground (arith, status_found false, active)) in
        rw (missing, verify_register) refl

    pub activated-HasAccount : HasAccount (activated u) (used o) after_activation
    activated-HasAccount = record {
      stored = ground (
        arith,
        users.find-update u.id u.id activated st.user_db (λ x. refl),
        has.stored,
        eq_refl u.id,
      );
      only_user = λ i s held same. elim (Option-cases (users.find i st.user_db)) [
        | inl gone ↦
            ground (arith, users.find-update i u.id activated st.user_db (λ x. refl), gone, held)
        | inr (r, there) ↦ has.only_user i r there (
            ground
              (arith, users.find-update i u.id activated st.user_db (λ x. refl), there, held, same))
      ];
      otp_stored = ground (
        arith,
        otps.find-update o.id o.id used st.otp_db (λ x. refl),
        has.otp_stored,
        eq_refl o.id,
      );
      otp_mine = has.otp_mine;
      only_otp = λ i s held mine. elim (Option-cases (otps.find i st.otp_db)) [
        | inl gone ↦ ground (arith, otps.find-update i o.id used st.otp_db (λ x. refl), gone, held)
        | inr (r, there) ↦
            has.only_otp i r there (
              ground (arith, otps.find-update i o.id used st.otp_db (λ x. refl), there, held, mine))
      ];
    }
