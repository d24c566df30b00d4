-- ===== src/AuthService/Auth/Resetting.antt =====
-- A forgotten password: what the request discloses, and what the new password ends.
use backend_core_platform.Common.Errors.ErrorCodes
use backend_core_platform.Common.Errors.{ok, fail}
use backend_core_platform.AuthService.Sessions.{User, Fresh}
use backend_core_platform.AuthService.Sessions.Logout.{logged_out_everywhere}
use backend_core_platform.AuthService.Accounts.{find_one_by_email, has_email}
use backend_core_platform.AuthService.PasswordResets.{
  is_verified, with_password, reset_password, create_password_reset, bad_request,
}
use backend_core_platform.AuthService.Auth.{Env, Tables, Store, Reply, Claims, Request}
use backend_core_platform.AuthService.Auth.Login.{refresh}
use backend_core_platform.AuthService.Auth.Recovery.{
  account_of, generic_message, resets_of, reset_event, forgot_password, forgot_password_reset,
  closed_sessions,
}
use backend_core_platform.Base.{
  ℕ, String, ◌≡◌, refl, inl, inr, Bool, not, ◌||◌, some, [], arith, eq_refl, is_some, Bool-cases,
  Option-cases,
}

module _ (env : Env) (tables : Tables) where
  -- What a request for a reset shows to who makes it, and what it leaves as it was.
  pub record IsDiscreet (st : Store tables) (reply : Reply tables String) : Type 1 where
    pub same_answer : reply.result ≡ ok generic_message
    pub no_cookies : reply.cookies ≡ []
    pub same_users : reply.store.user_db ≡ st.user_db
    pub same_sessions : reply.store.token_db ≡ st.token_db

  -- Whether or not the address has an account, the event is well-formed and the queue takes the job:
  -- the answer is the same general one without cookies, and neither users nor sessions change.
  pub forgot_password-IsDiscreet :
      (at : Fresh) (token : String) (queued : Bool) (email : String) (st : Store tables)
      → IsDiscreet st (forgot_password env tables at token queued email st)
  unfolding forgot_password create_password_reset
  forgot_password-IsDiscreet at token queued email st =
      elim (Option-cases (account_of env tables email st)) [
        | inl missing ↦
            rw (missing, forgot_password)
              (record {
                same_answer = refl;
                no_cookies = refl;
                same_users = refl;
                same_sessions = refl;
              })
        | inr (u, found) ↦
            let (_, payload) =
              create_password_reset env.passwords tables.users tables.resets env.encrypt at u.id
                token (resets_of env tables st) in
            elim (Bool-cases
              (is_some (env.reset_error (reset_event env tables u payload)) || not queued)) [
                | inl dropped ↦
                    rw (found, forgot_password)
                      (rw dropped (record {
                        same_answer = refl;
                        no_cookies = refl;
                        same_users = refl;
                        same_sessions = refl;
                      }))
                | inr sent ↦
                    rw (found, forgot_password)
                      (rw sent (record {
                        same_answer = refl;
                        no_cookies = refl;
                        same_users = refl;
                        same_sessions = refl;
                      }))
              ]
      ]

  account_stored :
      (email : String) (u : User) (st : Store tables)
      → account_of env tables email st ≡ some u
      → tables.users.find u.id st.user_db ≡ some u
  unfolding find_one_by_email
  account_stored email u st found =
      (tables.users.find_first_found (has_email email) u st.user_db found).0

  -- The reset of a password as the password resets make it, where the flow answers with success.
  reset_done :
      (now : ℕ) (salt email code password message : String) (u : User) (st : Store tables)
      → account_of env tables email st ≡ some u
      → (forgot_password_reset env tables now salt email code password st).result ≡ ok message
      → (db : tables.resets.Db) × ((forgot_password_reset env tables now salt email code password
            st).store
          ≡ closed_sessions env tables now u.id (record {
            user_db =
                tables.users.update u.id
                  (with_password (env.passwords.hash salt password))
                  st.user_db;
            otp_db = st.otp_db;
            reset_db = db;
            token_db = st.token_db;
          }))
  unfolding forgot_password_reset reset_password
  reset_done now salt email code password message u st found success =
      elim (Option-cases (tables.resets.find_first (is_verified u.id) st.reset_db)) [
        | inl missing ↦
            let failed : (forgot_password_reset env tables now salt email code password st).result
                ≡ bad_request "The code has not been verified" =
              rw (found, forgot_password_reset) (rw (missing, reset_password) refl) in
            absurd (ground (arith, success, failed))
        | inr (reset, there) ↦ elim (Bool-cases (env.passwords.verify reset.token_hash code)) [
          | inl valid ↦ (
            tables.resets.delete reset.id st.reset_db,
            rw (found, forgot_password_reset) (rw (there, reset_password) (rw valid refl)),
          )
          | inr wrong ↦
              let failed : (forgot_password_reset env tables now salt email code password st).result
                  ≡ bad_request "Invalid code" =
                rw (found, forgot_password_reset) (rw (there, reset_password) (rw wrong refl)) in
              absurd (ground (arith, success, failed))
        ]
      ]

  refresh_after_closing :
      (now : ℕ) (user_id : String) (at : Fresh) (token device_id : String) (req : Request)
      (claims : Claims) (st : Store tables)
      → env.verify_jwt at.now token ≡ ok claims
      → claims.sub ≡ user_id
      → (refresh env tables at token device_id req
          (closed_sessions env tables now user_id st)).result
        ≡ fail ErrorCodes.auth_refresh_token_invalid 401 "Invalid refresh token"
  unfolding refresh
  refresh_after_closing now user_id at token device_id req claims st decoded of_user =
      let out =
        logged_out_everywhere env.passwords tables.tokens now at.now
          (λ id. tables.users.find id st.user_db) user_id claims.perm_version token device_id
          st.token_db in
      rw (decoded, refresh) (rw of_user (rw (out, refresh) refl))

  -- Once `forgotPasswordReset` answers with success: the hash of the user's password is the one of
  -- the new password, and every refresh token of the user is refused with 401
  -- AUTH_REFRESH_TOKEN_INVALID, at any time, on any device and with any version.
  pub forgot_password_reset-refresh :
      (now : ℕ) (salt email code password message : String) (u : User) (at : Fresh)
      (token device_id : String) (req : Request) (claims : Claims) (st : Store tables)
      → account_of env tables email st ≡ some u
      → (forgot_password_reset env tables now salt email code password st).result ≡ ok message
      → env.verify_jwt at.now token ≡ ok claims
      → claims.sub ≡ u.id
      → let after = (forgot_password_reset env tables now salt email code password st).store in
        (tables.users.find u.id after.user_db
          ≡ some (with_password (env.passwords.hash salt password) u))
        × ((refresh env tables at token device_id req after).result
            ≡ fail ErrorCodes.auth_refresh_token_invalid 401 "Invalid refresh token")
  forgot_password_reset-refresh now salt email code password message u at token device_id req claims
        st found success decoded of_user =
      let (db, done) = reset_done now salt email code password message u st found success in
      let stored = account_stored email u st found in
      let changed =
        tables.users.find-update u.id u.id (with_password (env.passwords.hash salt password))
          st.user_db (λ x. refl) in
      rw done (
        ground (arith, changed, stored, eq_refl u.id),
        refresh_after_closing now u.id at token device_id req claims _ decoded of_user,
      )
