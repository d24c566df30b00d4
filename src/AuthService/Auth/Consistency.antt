-- ===== src/AuthService/Auth/Consistency.antt =====
-- What each flow of the auth service keeps: addresses are unique, and a device has one session.
use backend_core_platform.Common.Errors.{Result, Result-cases, ok, throws, Thrown}
use backend_core_platform.AuthService.Sessions.{Fresh, find_by_refresh_token, DataDevice}
use backend_core_platform.AuthService.Sessions.OnePerDevice.{
  IsSingle, save_refresh_token-IsSingle, logout_all_devices-IsSingle,
}
use backend_core_platform.AuthService.Accounts.{
  CreateUserResponse, check_active_email, find_one_by_email,
}
use backend_core_platform.AuthService.Accounts.Uniqueness.{IsSound, changed-IsSound}
use backend_core_platform.AuthService.PasswordResets.{
  with_password, is_pending, is_verified, verify_password_reset, reset_password,
}
use backend_core_platform.AuthService.Auth.{
  Env, Tables, Store, Reply, Request, CookieChange, get_device_data, CookieChange,
}
use backend_core_platform.AuthService.Auth.Login.{
  TokenUser, token_user, session_user, catching, refresh_token_of, issue_tokens, login, refresh,
}
use backend_core_platform.AuthService.Auth.Signup.{
  registered_event, resent_event, announced, resend_code,
}
use backend_core_platform.AuthService.Auth.Recovery.{
  account_of, Resets, resets_of, forgot_password_verify, forgot_password_reset, after_reset,
}
use backend_core_platform.AuthService.Auth.Refreshing.{issue_tokens_either}
use backend_core_platform.Base.{
  ℕ, String, ◌≡◌, refl, sym, subst, inl, inr, Option, none, some, List, Bool-cases, Option-cases,
}

module _ (env : Env) (tables : Tables) where
  abbrev SoundUsers : tables.users.Db → Type 0
  SoundUsers = IsSound env.passwords env.normalize tables.users tables.otps

  abbrev SingleTokens : tables.tokens.Db → Type 0
  SingleTokens = IsSingle env.passwords tables.tokens

  pub record IsConsistent (st : Store tables) : Type 0 where
    pub sound : SoundUsers st.user_db
    pub single : SingleTokens st.token_db

  catching_store :
      {A : Type 0} (also : List CookieChange) (f : Thrown → Thrown) (reply : Reply tables A)
      → (catching env tables also f reply).store ≡ reply.store
  catching_store also f reply = elim (Result-cases reply.result) [
    | inl (a, fine) ↦ rw fine refl
    | inr (t, failed) ↦ rw failed refl
  ]

  issue_tokens-IsConsistent :
      (at : Fresh) (u : TokenUser) (device : DataDevice) (device_id : String) (old : Option String)
      (st : Store tables)
      → IsConsistent st
      → IsConsistent (issue_tokens env tables at u device device_id old st).store
  issue_tokens-IsConsistent at u device device_id old st consistent =
      elim (issue_tokens_either env tables at u device device_id old st) [
        | inl renewed ↦ rw renewed (record {
          sound = consistent.sound;
          single =
              save_refresh_token-IsSingle env.passwords tables.tokens env.jwt_refresh_expires_in at
                u.id (refresh_token_of env at u) device_id device old st.token_db consistent.single;
        })
        | inr refused ↦ rw refused consistent
      ]

  pub login-IsConsistent :
      (at : Fresh) (email device_id : String) (req : Request) (st : Store tables)
      → IsConsistent st
      → IsConsistent (login env tables at email device_id req st).store
  unfolding login
  login-IsConsistent at email device_id req st consistent =
      elim (Result-cases (
        check_active_email env.passwords env.normalize tables.users tables.otps email st.user_db)) [
          | inr (t, failed) ↦ rw (failed, login) consistent
          | inl (user, fine) ↦
              rw (fine, login)
                (rw (catching_store _ _ _) (
                  issue_tokens-IsConsistent at (token_user user) (get_device_data env req) device_id
                    none st consistent))
        ]

  pub refresh-IsConsistent :
      (at : Fresh) (token device_id : String) (req : Request) (st : Store tables)
      → IsConsistent st
      → IsConsistent (refresh env tables at token device_id req st).store
  unfolding refresh
  refresh-IsConsistent at token device_id req st consistent =
      elim (Result-cases (env.verify_jwt at.now token)) [
        | inr (t, e) ↦ rw (e, refresh) consistent
        | inl (decoded, e) ↦
            elim (Result-cases (
              find_by_refresh_token env.passwords tables.tokens at.now
                (λ id. tables.users.find id st.user_db) decoded.sub decoded.perm_version token
                device_id st.token_db)) [
                  | inr (t, e') ↦ rw (e, refresh) (rw (e', refresh) consistent)
                  | inl (user, e') ↦
                      rw (e, refresh)
                        (rw (e', refresh)
                          (rw (catching_store _ _ _) (
                            issue_tokens-IsConsistent at (session_user user)
                              (get_device_data env req) device_id (some token) st consistent)))
                ]
      ]

  pub announced_store :
      (id : String) (st : Store tables) (made : Result CreateUserResponse)
      → (announced env tables id st made).store ≡ st
  unfolding announced
  announced_store id st (throws t) = refl
  announced_store id st (ok user) =
      elim (Option-cases (env.registered_error (registered_event env tables id user))) [
        | inl passes ↦ rw (passes, announced) refl
        | inr (message, fails) ↦ rw (fails, announced) refl
      ]

  -- Only the users and the tokens matter.
  pub same_parts :
      (st st' : Store tables)
      → st'.user_db ≡ st.user_db
      → st'.token_db ≡ st.token_db
      → IsConsistent st
      → IsConsistent st'
  same_parts st st' users tokens consistent = record {
    sound = subst (λ db. SoundUsers db) (sym users) consistent.sound;
    single = subst (λ db. SingleTokens db) (sym tokens) consistent.single;
  }

  pub resend_code-IsConsistent :
      (at : Fresh) (code email : String) (st : Store tables)
      → IsConsistent st
      → IsConsistent (resend_code env tables at code email st).store
  unfolding resend_code
  resend_code-IsConsistent at code email st consistent =
      elim (Option-cases
        (find_one_by_email env.passwords env.normalize tables.users tables.otps email st.user_db)) [
          | inl missing ↦ rw (missing, resend_code) consistent
          | inr (u, found) ↦ elim (Bool-cases u.is_active) [
            | inl active ↦ rw (found, resend_code) (rw active consistent)
            | inr waiting ↦
                elim (Option-cases (
                  env.registered_error
                    (resent_event env tables u (env.encrypt (env.passwords.hash at.salt code))))) [
                      | inl passes ↦
                          rw (found, resend_code)
                            (rw waiting
                              (rw (passes, resend_code) (same_parts st _ refl refl consistent)))
                      | inr (message, fails) ↦
                          rw (found, resend_code)
                            (rw waiting
                              (rw (fails, resend_code) (same_parts st _ refl refl consistent)))
                    ]
          ]
        ]

  verify_password_reset_users :
      (now : ℕ) (user_id code : String) (st : Resets env tables)
      → (verify_password_reset env.passwords tables.users tables.resets now user_id code
          st).0.user_db
        ≡ st.user_db
  unfolding verify_password_reset
  verify_password_reset_users now user_id code st =
      elim (Option-cases (tables.resets.find_first (is_pending now user_id) st.reset_db)) [
        | inl missing ↦ rw (missing, verify_password_reset) refl
        | inr (reset, found) ↦ elim (Bool-cases (env.passwords.verify reset.token_hash code)) [
          | inl valid ↦ rw (found, verify_password_reset) (rw valid refl)
          | inr wrong ↦ rw (found, verify_password_reset) (rw wrong refl)
        ]
      ]

  pub forgot_password_verify-IsConsistent :
      (now : ℕ) (email code : String) (st : Store tables)
      → IsConsistent st
      → IsConsistent (forgot_password_verify env tables now email code st).store
  unfolding forgot_password_verify
  forgot_password_verify-IsConsistent now email code st consistent =
      elim (Option-cases (account_of env tables email st)) [
        | inl missing ↦ rw (missing, forgot_password_verify) consistent
        | inr (u, found) ↦
            rw (found, forgot_password_verify)
              (same_parts st _ (verify_password_reset_users now u.id code (resets_of env tables st))
                refl consistent)
      ]

  pub forgot_password_reset-IsConsistent :
      (now : ℕ) (salt email code password : String) (st : Store tables)
      → IsConsistent st
      → IsConsistent (forgot_password_reset env tables now salt email code password st).store
  unfolding forgot_password_reset reset_password after_reset
  forgot_password_reset-IsConsistent now salt email code password st consistent =
      elim (Option-cases (account_of env tables email st)) [
        | inl missing ↦ rw (missing, forgot_password_reset) consistent
        | inr (u, found) ↦
            elim (Option-cases (tables.resets.find_first (is_verified u.id) st.reset_db)) [
              | inl none_verified ↦
                  rw (found, forgot_password_reset)
                    (rw (none_verified, reset_password) (same_parts st _ refl refl consistent))
              | inr (reset, there) ↦
                  elim (Bool-cases (env.passwords.verify reset.token_hash code)) [
                    | inr wrong ↦
                        rw (found, forgot_password_reset)
                          (rw (there, reset_password)
                            (rw wrong (same_parts st _ refl refl consistent)))
                    | inl valid ↦
                        rw (found, forgot_password_reset)
                          (rw (there, reset_password)
                            (rw valid (record {
                              sound =
                                  changed-IsSound env.passwords env.normalize tables.users
                                    tables.otps (with_password (env.passwords.hash salt password))
                                    (λ x. refl) (λ x. refl) u.id st.user_db consistent.sound;
                              single =
                                  logout_all_devices-IsSingle env.passwords tables.tokens now u.id
                                    st.token_db consistent.single;
                            })))
                  ]
            ]
      ]
