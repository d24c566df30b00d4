-- ===== src/AuthService/Auth/Invariant.antt =====
-- What every sequence of flows keeps.

use backend_core_platform.AuthService.Sessions.{Fresh}
use backend_core_platform.AuthService.Sessions.OnePerDevice.{
  logout_device-IsSingle, logout_all_devices-IsSingle,
}
use backend_core_platform.AuthService.Accounts.{CreateUserDto, Draws}
use backend_core_platform.AuthService.Accounts.Uniqueness.{creates, verifies, run-IsSound}
use backend_core_platform.AuthService.Auth.{Env, Tables, Store, Request}
use backend_core_platform.AuthService.Auth.Login.{login, refresh, logout_device_flow, logout_all}
use backend_core_platform.AuthService.Auth.Signup.{
  accounts_of, register_account, verify, resend_code,
}
use backend_core_platform.AuthService.Auth.Recovery.{
  forgot_password, forgot_password_verify, forgot_password_reset,
}
use backend_core_platform.AuthService.Auth.Resetting.{forgot_password-IsDiscreet}
use backend_core_platform.Base.{ℕ, String, ◌≡◌, Bool, List, [], ◌∷◌}
use backend_core_platform.AuthService.Auth.Consistency.{
  IsConsistent, announced_store, same_parts, login-IsConsistent, refresh-IsConsistent,
  resend_code-IsConsistent, forgot_password_verify-IsConsistent, forgot_password_reset-IsConsistent,
}

module _ (env : Env) (tables : Tables) where
  -- The flows with what they are given and draw.
  pub data Flow : Type 0 where
    registers : Draws → CreateUserDto → String → Flow
    verifies_account : ℕ → String → String → Flow
    resends : Fresh → String → String → Flow
    logs_in : Fresh → String → String → Request → Flow
    refreshes : Fresh → String → String → Request → Flow
    logs_out_device : ℕ → String → String → String → Flow
    logs_out_all : ℕ → String → Flow
    forgets : Fresh → String → Bool → String → Flow
    verifies_reset : ℕ → String → String → Flow
    resets_password : ℕ → String → String → String → String → Flow

  abbrev pub step : Flow → Store tables → Store tables
  step (registers at dto id) st = (register_account env tables at dto id st).store
  step (verifies_account now email code) st = (verify env tables now email code st).store
  step (resends at code email) st = (resend_code env tables at code email st).store
  step (logs_in at email device req) st = (login env tables at email device req st).store
  step (refreshes at token device req) st = (refresh env tables at token device req st).store
  step (logs_out_device now device user token) st =
      (logout_device_flow env tables now device user token st).store
  step (logs_out_all now user) st = (logout_all env tables now user st).store
  step (forgets at token queued email) st =
      (forgot_password env tables at token queued email st).store
  step (verifies_reset now email code) st =
      (forgot_password_verify env tables now email code st).store
  step (resets_password now salt email code password) st =
      (forgot_password_reset env tables now salt email code password st).store

  abbrev pub steps : List Flow → Store tables → Store tables
  steps [] st = st
  steps (flow ∷ flows) st = steps flows (step flow st)

  step-IsConsistent :
      (flow : Flow) (st : Store tables)
      → ((e : String) → env.normalize (env.normalize e) ≡ env.normalize e)
      → IsConsistent env tables st
      → IsConsistent env tables (step flow st)
  unfolding register_account verify logout_device_flow logout_all
  step-IsConsistent (registers at dto id) st idempotent consistent =
      rw (announced_store env tables _ _ _) (record {
        sound =
            run-IsSound env.passwords env.normalize tables.users tables.otps env.encrypt
              (creates at dto) (accounts_of env tables st) idempotent consistent.sound;
        single = consistent.single;
      })
  step-IsConsistent (verifies_account now email code) st idempotent consistent = record {
    sound =
        run-IsSound env.passwords env.normalize tables.users tables.otps env.encrypt
          (verifies now email code) (accounts_of env tables st) idempotent consistent.sound;
    single = consistent.single;
  }
  step-IsConsistent (resends at code email) st idempotent consistent =
      resend_code-IsConsistent env tables at code email st consistent
  step-IsConsistent (logs_in at email device req) st idempotent consistent =
      login-IsConsistent env tables at email device req st consistent
  step-IsConsistent (refreshes at token device req) st idempotent consistent =
      refresh-IsConsistent env tables at token device req st consistent
  step-IsConsistent (logs_out_device now device user token) st idempotent consistent = record {
    sound = consistent.sound;
    single =
        logout_device-IsSingle env.passwords tables.tokens now device user token st.token_db
          consistent.single;
  }
  step-IsConsistent (logs_out_all now user) st idempotent consistent = record {
    sound = consistent.sound;
    single =
        logout_all_devices-IsSingle env.passwords tables.tokens now user st.token_db
          consistent.single;
  }
  step-IsConsistent (forgets at token queued email) st idempotent consistent =
      let discreet = forgot_password-IsDiscreet env tables at token queued email st in
      same_parts env tables st _ discreet.same_users discreet.same_sessions consistent
  step-IsConsistent (verifies_reset now email code) st idempotent consistent =
      forgot_password_verify-IsConsistent env tables now email code st consistent
  step-IsConsistent (resets_password now salt email code password) st idempotent consistent =
      forgot_password_reset-IsConsistent env tables now salt email code password st consistent

  -- Where normalising an address twice is normalising it once: after any sequence of registrations,
  -- verifications, new codes, logins, refreshes, logouts and steps of forgotten passwords, whatever
  -- they are given and draw, no two accounts share an address, every stored address is normalised,
  -- and no user has two open sessions on one device, if that held at the start.
  pub steps-IsConsistent :
      (flows : List Flow) (st : Store tables)
      → ((e : String) → env.normalize (env.normalize e) ≡ env.normalize e)
      → IsConsistent env tables st
      → IsConsistent env tables (steps flows st)
  steps-IsConsistent [] st idempotent consistent = consistent
  steps-IsConsistent (flow ∷ flows) st idempotent consistent =
      steps-IsConsistent flows (step flow st) idempotent
        (step-IsConsistent flow st idempotent consistent)
