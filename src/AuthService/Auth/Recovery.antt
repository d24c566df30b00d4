-- ===== src/AuthService/Auth/Recovery.antt =====
-- apps/auth-service/src/modules/auth/auth.service.ts: forgotPassword, forgotPasswordVerify and
-- forgotPasswordReset, over the password resets and the sessions.
use backend_core_platform.Common.Errors.ErrorCodes
use backend_core_platform.Common.Errors.{Result, ok, throws, Thrown, fail}
use backend_core_platform.AuthService.Sessions.{User, Fresh, logout_all_devices}
use backend_core_platform.AuthService.Accounts.{find_one_by_email}
use backend_core_platform.AuthService.PasswordResets.{
  State, create_password_reset, verify_password_reset, reset_password,
}
use backend_core_platform.AuthService.Auth.{
  Env, Tables, Store, Reply, PasswordResetRequestedEvent, Event, password_reset_requested,
  unless_service,
}
use backend_core_platform.Base.{
  ℕ, String, Bool, not, ◌||◌, Option, none, some, List, [], ◌∷◌, if◌then◌else◌, is_some,
}

abbrev pub generic_message : String
generic_message = "If an account with that email exists, a password reset link has been sent."

module _ (env : Env) (tables : Tables) where
  abbrev pub Resets : Type 0
  Resets = State env.passwords tables.users tables.resets

  abbrev pub resets_of : Store tables → Resets
  resets_of st = record { user_db = st.user_db; reset_db = st.reset_db }

  abbrev pub with_resets : Resets → Store tables → Store tables
  with_resets resets st = record {
    user_db = resets.user_db;
    otp_db = st.otp_db;
    reset_db = resets.reset_db;
    token_db = st.token_db;
  }

  abbrev pub account_of : String → Store tables → Option User
  account_of email st =
      find_one_by_email env.passwords env.normalize tables.users tables.otps email st.user_db

  abbrev pub reset_event : User → String × ℕ → PasswordResetRequestedEvent
  reset_event user (token, expires_at) = record {
    user_id = user.id;
    email = user.email;
    token = token;
    expires_at = env.to_iso_string expires_at;
  }

  -- The answer is the same whatever happened; `queued` says whether the queue takes the job.
  abbrev answered : List Event → Store tables → Reply tables String
  answered events st = record {
    store = st;
    cookies = [];
    events = events;
    result = ok generic_message;
  }

  unfoldable pub forgot_password :
      Fresh → String → Bool → String → Store tables → Reply tables String
  forgot_password at token queued email st = elim (account_of email st) [
    | none ↦ answered [] st
    | some user ↦
        let (resets, payload) =
          create_password_reset env.passwords tables.users tables.resets env.encrypt at user.id
            token (resets_of st) in
        let event = reset_event user payload in
        if is_some (env.reset_error event) || not queued
        then answered [] (with_resets resets st)
        else answered (password_reset_requested event ∷ []) (with_resets resets st)
  ]

  abbrev done : String → (Thrown → Thrown) → Result Bool → Result String
  done message f (ok b) = ok message
  done message f (throws t) = throws (f t)

  unfoldable pub forgot_password_verify : ℕ → String → String → Store tables → Reply tables String
  forgot_password_verify now email code st = elim (account_of email st) [
    | none ↦ record {
      store = st;
      cookies = [];
      events = [];
      result = fail ErrorCodes.not_found 404 "Email not found";
    }
    | some user ↦
        let (resets, verified) =
          verify_password_reset env.passwords tables.users tables.resets now user.id code
            (resets_of st) in
        record {
          store = with_resets resets st;
          cookies = [];
          events = [];
          result =
              done "Password reset verified"
                (unless_service ErrorCodes.bad_request 400 "Error verifying password reset")
                verified;
        }
  ]

  -- All devices are logged out, once the new password is set.
  abbrev pub closed_sessions : ℕ → String → Store tables → Store tables
  closed_sessions now user_id st = record {
    user_db = st.user_db;
    otp_db = st.otp_db;
    reset_db = st.reset_db;
    token_db = (logout_all_devices env.passwords tables.tokens now user_id st.token_db).0;
  }

  unfoldable pub after_reset : ℕ → String → Store tables → Result Bool → Reply tables String
  after_reset now user_id st (ok b) = record {
    store = closed_sessions now user_id st;
    cookies = [];
    events = [];
    result = ok "Password reset success";
  }
  after_reset now user_id st (throws t) = record {
    store = st;
    cookies = [];
    events = [];
    result = throws (unless_service ErrorCodes.bad_request 400 "Error resetting password" t);
  }

  unfoldable pub forgot_password_reset :
      ℕ → String → String → String → String → Store tables → Reply tables String
  unfolding after_reset
  forgot_password_reset now salt email code password st = elim (account_of email st) [
    | none ↦ record {
      store = st;
      cookies = [];
      events = [];
      result = fail ErrorCodes.bad_request 400 "Bad request";
    }
    | some user ↦
        let (resets, changed) =
          reset_password env.passwords tables.users tables.resets salt user.id password code
            (resets_of st) in
        after_reset now user.id (with_resets resets st) changed
  ]
