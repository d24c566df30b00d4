-- ===== src/AuthService/Auth/Signup.antt =====
-- apps/auth-service/src/modules/auth/auth.service.ts: register, verify, resendCode and info, over the
-- accounts.
use backend_core_platform.Common.Errors.ErrorCodes
use backend_core_platform.Common.Errors.{Result, ok, throws, Thrown, error, fail}
use backend_core_platform.AuthService.Sessions.{User, Fresh}
use backend_core_platform.AuthService.Accounts.{
  State, CreateUserDto, CreateUserResponse, Draws, create_user, verify_register, find_one_by_email,
  create_or_update_email_otp,
}
use backend_core_platform.AuthService.Auth.{
  Env, Tables, Store, Reply, UserRegisteredEvent, user_registered, wrapped,
}
use backend_core_platform.Base.{ℕ, String, Bool, none, some, [], ◌∷◌, if◌then◌else◌}

pub record RegisterResponse : Type 0 where
  pub user_id : String
  pub email : String
  pub created_at : ℕ

module _ (env : Env) (tables : Tables) where
  abbrev pub Accounts : Type 0
  Accounts = State env.passwords env.normalize tables.users tables.otps

  abbrev pub accounts_of : Store tables → Accounts
  accounts_of st = record { user_db = st.user_db; otp_db = st.otp_db }

  abbrev pub with_accounts : Accounts → Store tables → Store tables
  with_accounts accounts st = record {
    user_db = accounts.user_db;
    otp_db = accounts.otp_db;
    reset_db = st.reset_db;
    token_db = st.token_db;
  }

  abbrev pub registered_event : String → CreateUserResponse → UserRegisteredEvent
  registered_event request_id user = record {
    user_id = user.user_id;
    email = user.email;
    code = user.code;
    created_at = env.to_iso_string user.created_at;
    request_id = some request_id;
  }

  -- What `register` does once the account is made, or refused. The account stays where the schema
  -- refuses the event.
  unfoldable pub announced :
      String → Store tables → Result CreateUserResponse → Reply tables RegisterResponse
  announced request_id st (throws t) = record {
    store = st;
    cookies = [];
    events = [];
    result = throws t;
  }
  announced request_id st (ok user) =
      elim (env.registered_error (registered_event request_id user)) [
        | some message ↦ record {
          store = st;
          cookies = [];
          events = [];
          result = throws (error message);
        }
        | none ↦ record {
          store = st;
          cookies = [];
          events = user_registered (registered_event request_id user) ∷ [];
          result =
              ok (record {
                user_id = user.user_id;
                email = user.email;
                created_at = user.created_at;
              });
        }
      ]

  unfoldable pub register_account :
      Draws → CreateUserDto → String → Store tables → Reply tables RegisterResponse
  unfolding announced
  register_account at dto request_id st =
      let (accounts, user) =
        create_user env.passwords env.normalize tables.users tables.otps env.encrypt at dto
          (accounts_of st) in
      announced request_id (with_accounts accounts st) user

  abbrev invalid_code : Result Bool
  invalid_code = fail ErrorCodes.validation_error 401 "Invalid code"

  abbrev verdict : Result Bool → Result Bool
  verdict (ok b) = ok b
  verdict (throws t) = invalid_code

  unfoldable pub verify : ℕ → String → String → Store tables → Reply tables Bool
  verify now email code st =
      let (accounts, done) =
        verify_register env.passwords env.normalize tables.users tables.otps now email code
          (accounts_of st) in
      record { store = with_accounts accounts st; cookies = []; events = []; result = verdict done }

  -- The event of a new code: no request id.
  abbrev pub resent_event : User → String → UserRegisteredEvent
  resent_event user code = record {
    user_id = user.id;
    email = user.email;
    code = code;
    created_at = env.to_iso_string user.created_at;
    request_id = none;
  }

  abbrev not_found_user : Thrown → Thrown
  not_found_user = wrapped ErrorCodes.auth_invalid_credentials 401 "Not found user"

  abbrev pub renewed_code : Fresh → User → String → Store tables → Store tables
  renewed_code at user code st = record {
    user_db = st.user_db;
    otp_db =
        create_or_update_email_otp env.passwords env.normalize tables.users tables.otps at.now at.id
          user.id (env.passwords.hash at.salt code) st.otp_db;
    reset_db = st.reset_db;
    token_db = st.token_db;
  }

  -- `code` is the random text; the id of `at` is for a row that may be new.
  unfoldable pub resend_code : Fresh → String → String → Store tables → Reply tables String
  resend_code at code email st =
      let absent : Reply tables String = record {
        store = st;
        cookies = [];
        events = [];
        result = fail ErrorCodes.auth_invalid_credentials 401 "Not found user";
      } in
      elim (find_one_by_email env.passwords env.normalize tables.users tables.otps email
        st.user_db) [
          | none ↦ absent
          | some user ↦
              if user.is_active
              then absent
              else let event = resent_event user (env.encrypt (env.passwords.hash at.salt code)) in
                elim (env.registered_error event) [
                  | some message ↦ record {
                    store = renewed_code at user code st;
                    cookies = [];
                    events = [];
                    result = throws (not_found_user (error message));
                  }
                  | none ↦ record {
                    store = renewed_code at user code st;
                    cookies = [];
                    events = user_registered event ∷ [];
                    result = ok "Verification code resent";
                  }
                ]
        ]
