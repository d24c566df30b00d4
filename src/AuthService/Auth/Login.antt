-- ===== src/AuthService/Auth/Login.antt =====
-- apps/auth-service/src/modules/auth/auth.service.ts: issueTokens, login, refresh, logoutDevice and
-- logoutAll, over the sessions.
use backend_core_platform.Common.Errors.ErrorCodes
use backend_core_platform.Common.Errors.{Result, ok, throws, Thrown}
use backend_core_platform.AuthService.Sessions.{
  User, DataDevice, Fresh, save_refresh_token, find_by_refresh_token, logout_device,
  logout_all_devices, UserAuthResponse,
}
use backend_core_platform.AuthService.Accounts.{check_active_email}
use backend_core_platform.AuthService.Auth.{
  Env, Tables, Store, Reply, Claims, CookieChange, sets, clears, Request, get_device_data, wrapped,
  unless_service, number_or_default, RefreshToken,
}
use backend_core_platform.Base.{
  ℕ, ◌+◌, ◌*◌, String, Option, none, some, List, [], ◌∷◌, ◌++◌, ℤ, pos, negsuc,
}

pub record LoginResponse : Type 0 where
  pub id : String
  pub email : String
  pub perm_version : ℕ
  pub access_token : String

-- The fields of a user that a token is made of.
pub record TokenUser : Type 0 where
  pub id : String
  pub email : String
  pub perm_version : ℕ

abbrev pub token_user : User → TokenUser
token_user u = record { id = u.id; email = u.email; perm_version = u.perm_version }

abbrev pub session_user : UserAuthResponse → TokenUser
session_user u = record { id = u.id; email = u.email; perm_version = u.perm_version }

abbrev pub claims_of : TokenUser → Claims
claims_of u = record { email = u.email; sub = u.id; perm_version = u.perm_version }

abbrev pub refresh_token_of : Env → Fresh → TokenUser → String
refresh_token_of env at u =
    env.sign (claims_of u) (number_or_default env.jwt_refresh_expires_in 2592000) at.now

abbrev pub access_token_of : Env → Fresh → TokenUser → String
access_token_of env at u = env.sign (claims_of u) (number_or_default env.jwt_expires_in 900) at.now

abbrev pub thousandfold : ℤ → ℤ
thousandfold (pos n) = pos (n * 1000)
thousandfold (negsuc n) = negsuc (n * 1000 + 999)

-- `Number(setting) * 1000 || 60 * 60 * 24 * 30 * 1000`
abbrev pub max_age_of : Env → ℤ
max_age_of env = thousandfold (number_or_default env.jwt_refresh_expires_in 2592000)

abbrev pub login_response : Env → Fresh → TokenUser → LoginResponse
login_response env at u = record {
  id = u.id;
  email = u.email;
  perm_version = u.perm_version;
  access_token = access_token_of env at u;
}

abbrev pub session_cookies : Env → Fresh → TokenUser → String → List CookieChange
session_cookies env at u device_id =
    sets "refreshToken" (refresh_token_of env at u) (some (max_age_of env))
    ∷ sets "deviceId" device_id none
    ∷ []

abbrev pub cleared_cookies : List CookieChange
cleared_cookies = clears "refreshToken" ∷ clears "deviceId" ∷ []

module _ (env : Env) (tables : Tables) where
  abbrev pub with_tokens : tables.tokens.Db → Store tables → Store tables
  with_tokens db st = record {
    user_db = st.user_db;
    otp_db = st.otp_db;
    reset_db = st.reset_db;
    token_db = db;
  }

  -- What `issueTokens` does once the refresh token is saved, or refused.
  unfoldable pub issued :
      Fresh → TokenUser → String → Store tables → Result RefreshToken → Reply tables LoginResponse
  issued at u device_id st (ok row) = record {
    store = st;
    cookies = session_cookies env at u device_id;
    events = [];
    result = ok (login_response env at u);
  }
  issued at u device_id st (throws t) = record {
    store = st;
    cookies = [];
    events = [];
    result = throws t;
  }

  unfoldable pub issue_tokens :
      Fresh
      → TokenUser
      → DataDevice
      → String
      → Option String
      → Store tables
      → Reply tables LoginResponse
  unfolding issued
  issue_tokens at u device device_id old st =
      let (db, saved) =
        save_refresh_token env.passwords tables.tokens env.jwt_refresh_expires_in at u.id
          (refresh_token_of env at u) device device_id old st.token_db in
      issued at u device_id (with_tokens db st) saved

  -- A reply with what it throws changed, and `also` to the cookies where it throws.
  abbrev pub catching :
      {A : Type 0} → List CookieChange → (Thrown → Thrown) → Reply tables A → Reply tables A
  catching also f reply = elim reply.result [
    | ok a ↦ reply
    | throws t ↦ record {
      store = reply.store;
      cookies = reply.cookies ++ also;
      events = reply.events;
      result = throws (f t);
    }
  ]

  abbrev refused : {A : Type 0} → Store tables → Thrown → Reply tables A
  refused st t = record { store = st; cookies = []; events = []; result = throws t }

  -- `device_id` is the random id of a new device.
  unfoldable pub login :
      Fresh → String → String → Request → Store tables → Reply tables LoginResponse
  unfolding issue_tokens
  login at email device_id req st =
      catching []
        (unless_service ErrorCodes.auth_invalid_credentials 401 "Invalid email or password")
        (elim (check_active_email env.passwords env.normalize tables.users tables.otps email
          st.user_db) [
            | throws t ↦ refused st t
            | ok user ↦
                issue_tokens at (token_user user) (get_device_data env req) device_id none st
          ])

  unfoldable pub refresh :
      Fresh → String → String → Request → Store tables → Reply tables LoginResponse
  unfolding issue_tokens
  refresh at token device_id req st =
      catching cleared_cookies
        (wrapped ErrorCodes.auth_refresh_token_invalid 401 "Invalid refresh token")
        (elim (env.verify_jwt at.now token) [
          | throws t ↦ refused st t
          | ok decoded ↦
              elim (find_by_refresh_token env.passwords tables.tokens at.now
                (λ id. tables.users.find id st.user_db) decoded.sub decoded.perm_version token
                device_id st.token_db) [
                  | throws t ↦ refused st t
                  | ok user ↦
                      issue_tokens at (session_user user) (get_device_data env req) device_id
                        (some token) st
                ]
        ])

  unfoldable pub logout_device_flow :
      ℕ → String → String → String → Store tables → Reply tables String
  logout_device_flow now device_id user_id token st = record {
    store =
        with_tokens
          (logout_device env.passwords tables.tokens now device_id user_id token st.token_db).0 st;
    cookies = cleared_cookies;
    events = [];
    result = ok "logout success";
  }

  unfoldable pub logout_all : ℕ → String → Store tables → Reply tables String
  logout_all now user_id st = record {
    store =
        with_tokens (logout_all_devices env.passwords tables.tokens now user_id st.token_db).0 st;
    cookies = cleared_cookies;
    events = [];
    result = ok "logout success";
  }
