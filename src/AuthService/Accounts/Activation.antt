-- ===== src/AuthService/Accounts/Activation.antt =====
-- An account from its creation to its activation by the code that was mailed.
use backend_core_platform.External.Table.{Table}
use backend_core_platform.External.Table.Queries.{find_first_none}
use backend_core_platform.Common.Errors.{ok}
use backend_core_platform.AuthService.Passwords.{Passwords}
use backend_core_platform.AuthService.Sessions.{User, user_id_of}
use backend_core_platform.AuthService.Accounts.{
  EmailOtp, otp_id, State, CreateUserDto, Draws, create_user, verify_register, check_active_email,
  create_or_update_email_otp, has_email, is_otp_of, activated, used, new_user, new_otp, not_active,
  bad_request_exception, not_found_exception,
}
use backend_core_platform.Base.{
  ℕ, ◌+◌, ◌≤◌, ◌<◌, String, ◌≡◌, refl, ◌≢◌, true, some, arith, eq_iff, eq_refl, ◌==◌, Eq_ℕ,
  Eq_String, Bool-cases,
}
use backend_core_platform.AuthService.Accounts.Holding.{
  HasAccount, check_active_email_account, verify_register_account, verify_register_active,
  activated-HasAccount, after_activation,
}

module _ (passwords : Passwords) (normalize : String → String) (users : Table User user_id_of)
    (otps : Table EmailOtp otp_id) where
  abbrev St : Type 0
  St = State passwords normalize users otps

  module _ (encrypt : String → String) (at : Draws) (dto : CreateUserDto) (st : St) where
    abbrev pub code_hash : String
    code_hash = passwords.hash at.code_salt at.code

    abbrev pub row : User
    row = new_user passwords at (normalize dto.email) dto

    abbrev pub otp : EmailOtp
    otp = new_otp at.otp_id at.user_id code_hash (at.now + 900000)

    abbrev pub created : St
    created = record { user_db = users.create row st.user_db; otp_db = otps.create otp st.otp_db }

    module _
        (no_user : (i : String) (s : User)
          → users.find i st.user_db ≡ some s
          → s.email ≢ normalize dto.email)
        (no_otp : (i : String) (s : EmailOtp)
          → otps.find i st.otp_db ≡ some s
          → s.user_id ≢ at.user_id) where
      pub create_user_new : create_user passwords normalize users otps encrypt at dto st ≡ (
        created,
        ok (record {
          user_id = at.user_id;
          email = normalize dto.email;
          code = encrypt code_hash;
          created_at = at.now;
        }),
      )
      unfolding create_user
      create_user_new =
          let missing =
            find_first_none users (has_email (normalize dto.email)) st.user_db (λ i s held.
              ground (arith, no_user i s held, eq_iff s.email (normalize dto.email))) in
          let none_yet =
            find_first_none otps (is_otp_of at.user_id) st.otp_db
              (λ i s held. ground (arith, no_otp i s held, eq_iff s.user_id at.user_id)) in
          rw (missing, create_user) (rw (none_yet, create_or_update_email_otp) refl)

      pub created-HasAccount : HasAccount passwords normalize users otps row otp created
      created-HasAccount = record {
        stored = ground (arith, users.find-create at.user_id row st.user_db, eq_refl at.user_id);
        only_user = λ i s held same. ground (
          arith,
          users.find-create i row st.user_db,
          eq_iff at.user_id i,
          no_user i s,
          held,
          same,
        );
        otp_stored = ground (arith, otps.find-create at.otp_id otp st.otp_db, eq_refl at.otp_id);
        otp_mine = refl;
        only_otp = λ i s held mine.
            ground
              (arith, otps.find-create i otp st.otp_db, eq_iff at.otp_id i, no_otp i s, held, mine);
      }

      -- Registration of an address that no account has, under a new user id: the account is made,
      -- and is refused with 401 as not verified. Within the quarter of an hour any code but the hash
      -- of the drawn one is refused as invalid and changes nothing; that hash activates the account,
      -- which then passes, and the same code is refused afterwards. The address may be given in any
      -- spelling with the same normal form.
      pub create_user-verify_register :
          (now : ℕ) (email wrong : String)
          → normalize email ≡ normalize dto.email
          → now < at.now + 900000
          → wrong ≢ code_hash
          → let (st₁, made) = create_user passwords normalize users otps encrypt at dto st in
            let verify = verify_register passwords normalize users otps now email in
            let check = λ (s : St).
              check_active_email passwords normalize users otps (normalize dto.email) s.user_db in
            let (st₂, done) = verify code_hash st₁ in
            (made
              ≡ ok (record {
                user_id = at.user_id;
                email = normalize dto.email;
                code = encrypt code_hash;
                created_at = at.now;
              }))
            × (check st₁ ≡ not_active)
            × (verify wrong st₁ ≡ (st₁, bad_request_exception "Invalid code"))
            × (done ≡ ok true)
            × (check st₂ ≡ ok (activated row))
            × (verify code_hash st₂
                ≡ (st₂, not_found_exception "User not found Or already verified"))
      create_user-verify_register now email wrong same fresh apart =
          let has = created-HasAccount in
          let verdict =
            verify_register_account passwords normalize users otps row otp created has now email in
          let right : verify_register passwords normalize users otps now email code_hash created
              ≡ (after_activation passwords normalize users otps row otp created has, ok true) =
            ground (arith, verdict code_hash same refl, fresh, eq_refl code_hash) in
          let later = activated-HasAccount passwords normalize users otps row otp created has in
          let st₂ = after_activation passwords normalize users otps row otp created has in
          rw create_user_new (
            rw right (
              refl,
              check_active_email_account passwords normalize users otps row otp created has,
              ground (arith, verdict wrong same refl, eq_iff code_hash wrong, apart),
              refl,
              check_active_email_account passwords normalize users otps (activated row) (used otp)
                  st₂ later,
              verify_register_active passwords normalize users otps (activated row) (used otp) st₂
                  later now email code_hash same refl,
            ))

      -- A quarter of an hour after such a registration every code is refused as invalid, nothing is
      -- changed, and the account stays refused as not verified.
      pub create_user-verify_register_expired :
          (now : ℕ) (email code : String)
          → normalize email ≡ normalize dto.email
          → at.now + 900000 ≤ now
          → let st₁ = (create_user passwords normalize users otps encrypt at dto st).0 in
            (verify_register passwords normalize users otps now email code st₁
              ≡ (st₁, bad_request_exception "Invalid code"))
            × (check_active_email passwords normalize users otps (normalize dto.email) st₁.user_db
                ≡ not_active)
      create_user-verify_register_expired now email code same late =
          let has = created-HasAccount in
          rw create_user_new (
            ground (
              arith,
              verify_register_account passwords normalize users otps row otp created has now email
                  code same refl,
              late,
              Bool-cases (code_hash == code),
            ),
            check_active_email_account passwords normalize users otps row otp created has,
          )
