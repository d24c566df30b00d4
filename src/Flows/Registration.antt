-- ===== src/Flows/Registration.antt =====
-- A registration from the auth service over the event and the mail back to the auth service.
use backend_core_platform.Common.Errors.{Result, ok}
use backend_core_platform.Common.JetStream.{acks, consume_batch}
use backend_core_platform.AuthService.Sessions.{User}
use backend_core_platform.AuthService.Accounts.{
  EmailOtp, CreateUserDto, Draws, check_active_email, activated, new_user,
}
use backend_core_platform.AuthService.Accounts.Holding.{
  verify_register_account, activated-HasAccount, check_active_email_account,
}
use backend_core_platform.AuthService.Accounts.Activation.{
  row, otp, created, create_user_new, created-HasAccount,
}
use backend_core_platform.AuthService.Auth.{
  Env, Tables, Store, UserRegisteredEvent, user_registered,
}
use backend_core_platform.AuthService.Auth.Signup.{
  accounts_of, registered_event, announced, register_account, verify,
}
use backend_core_platform.NotificationService.Mails.{
  Mail, Mailer, verify_mail, handle_user_registered,
}
use backend_core_platform.NotificationService.Mails.Sending.{registered_mailed}
use backend_core_platform.Base.{
  ℕ, ◌+◌, ◌<◌, String, ◌≡◌, refl, ◌≢◌, true, false, ◌&&◌, none, some, List, [], ◌∷◌, ◌++◌, arith,
  eq_refl, ltb, ◌==◌, Eq_ℕ, Eq_String,
}

module _ (env : Env) (tables : Tables) (mailer : Mailer) (decrypt : String → Result String)
    (parse : String → Result UserRegisteredEvent) (at : Draws) (dto : CreateUserDto)
    (request_id : String) (st : Store tables) where
  abbrev pub hash : String
  hash = env.passwords.hash at.code_salt at.code

  abbrev pub event : UserRegisteredEvent
  event = registered_event env tables request_id (record {
    user_id = at.user_id;
    email = env.normalize dto.email;
    code = env.encrypt hash;
    created_at = at.now;
  })

  -- An address that no account has, under a new user id, with a well-formed event: `register` sends
  -- the event; its message makes the notification service mail a link with the hash of the code to
  -- the address and is acknowledged; and within a quarter of an hour that hash activates the
  -- account. Assumed: the message parses to the event, decryption undoes encryption for this hash,
  -- and the mail transport takes the mail.
  pub register_account-verify :
      (now : ℕ) (email msg : String) (taken : List Mail)
      → ((i : String) (s : User)
          → tables.users.find i st.user_db ≡ some s
          → s.email ≢ env.normalize dto.email)
      → ((i : String) (s : EmailOtp)
          → tables.otps.find i st.otp_db ≡ some s
          → s.user_id ≢ at.user_id)
      → env.normalize email ≡ env.normalize dto.email
      → now < at.now + 900000
      → env.registered_error event ≡ none
      → parse msg ≡ ok event
      → decrypt (env.encrypt hash) ≡ ok hash
      → mailer.transport (verify_mail mailer (env.normalize dto.email) hash) ≡ none
      → let reply = register_account env tables at dto request_id st in
        let answer = verify env tables now email hash reply.store in
        (reply.events ≡ user_registered event ∷ [])
        × (consume_batch (handle_user_registered mailer decrypt parse) ((false, msg) ∷ []) taken
            ≡ (taken ++ verify_mail mailer (env.normalize dto.email) hash ∷ [], acks msg ∷ []))
        × (answer.result ≡ ok true)
        × (check_active_email env.passwords env.normalize tables.users tables.otps
              (env.normalize dto.email)
              answer.store.user_db
            ≡ ok (activated (new_user env.passwords at (env.normalize dto.email) dto)))
  unfolding register_account announced verify
  register_account-verify now email msg taken no_user no_otp same fresh passes parsed readable up =
      let accounts = accounts_of env tables st in
      let p = env.passwords in
      let n = env.normalize in
      let us = tables.users in
      let os = tables.otps in
      let made = create_user_new p n us os env.encrypt at dto accounts no_user no_otp in
      let has = created-HasAccount p n us os env.encrypt at dto accounts no_user no_otp in
      let u = row p n us os env.encrypt at dto accounts in
      let o = otp p n us os env.encrypt at dto accounts in
      let st₁ = created p n us os env.encrypt at dto accounts in
      let verdict = verify_register_account p n us os u o st₁ has now email hash same refl in
      let right : (hash == o.code_hash && ltb now o.expires_at) ≡ true =
        ground (arith, fresh, eq_refl hash) in
      rw (made, register_account)
        (rw (passes, announced)
          (rw verdict (
            rw right (
              refl,
              registered_mailed mailer decrypt parse msg hash event taken parsed readable up,
              refl,
              check_active_email_account p n us os (activated u) _ _
                  (activated-HasAccount p n us os u o st₁ has),
            ))))
