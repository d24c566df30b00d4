-- ===== src/AuthService/Auth.antt =====
-- apps/auth-service/src/modules/auth/auth.service.ts: what its flows share. The tables, argon2, the
-- signing of tokens, the schemas of events and the parser of user agents are parameters; cookies and
-- events are effects of a reply.
pub mod Login
pub mod Signup
pub mod Recovery
pub mod Refreshing
pub mod Ending
pub mod Resending
pub mod Resetting
pub mod Consistency
pub mod Invariant
pub mod Examples
use backend_core_platform.External.Table.{Table}
use backend_core_platform.Common.Errors.{
  Result, ok, throws, Thrown, service, http, axios_like, error, other, service_error,
}
use backend_core_platform.Common.RateLimiter.Key.{before_comma}
use backend_core_platform.AuthService.Passwords.{Passwords}
use backend_core_platform.AuthService.Sessions.{
  User, user_id_of, RefreshToken, token_id, DataDevice,
}
use backend_core_platform.AuthService.Accounts.{EmailOtp, otp_id}
use backend_core_platform.AuthService.PasswordResets.{PasswordReset, reset_id}
use backend_core_platform.Base.{
  ℕ, String, Option, none, some, List, ◌==◌, Eq_ℕ, Eq_String, if◌then◌else◌, is_empty, coalesce,
  concat, ℤ, pos, negsuc, undefined,
}

-- The payload of a token, signed and decoded.
pub record Claims : Type 0 where
  pub email : String
  pub sub : String
  pub perm_version : ℕ

pub record UserRegisteredEvent : Type 0 where
  pub user_id : String
  pub email : String
  pub code : String
  pub created_at : String
  pub request_id : Option String

pub record PasswordResetRequestedEvent : Type 0 where
  pub user_id : String
  pub email : String
  pub token : String
  pub expires_at : String

-- What the service hands to others: an event published on NATS, or a job of the mail queue.
pub data Event : Type 0 where
  user_registered : UserRegisteredEvent → Event
  password_reset_requested : PasswordResetRequestedEvent → Event

-- `sets` with the name, the value and the `maxAge`, if there is one.
pub data CookieChange : Type 0 where
  sets : String → String → Option ℤ → CookieChange
  clears : String → CookieChange

pub record Request : Type 0 where
  pub forwarded_for : Option String
  pub ip : Option String
  pub user_agent : Option String

-- The code that the flows call, which is not under src/, and the configuration.
pub record Env : Type 0 where
  pub passwords : Passwords
  pub normalize : String → String
  pub encrypt : String → String
  -- The claims, `expiresIn` and the time of signing.
  pub sign : Claims → ℤ → ℕ → String
  pub verify_jwt : ℕ → String → Result Claims
  pub to_iso_string : ℕ → String
  -- The message of the error that the schema throws, or none where it passes the event.
  pub registered_error : UserRegisteredEvent → Option String
  pub reset_error : PasswordResetRequestedEvent → Option String
  -- The names of the browser and of the system.
  pub parse_agent : Option String → Option String × Option String
  -- `Number` of the two settings, or none where that is not a number.
  pub jwt_refresh_expires_in : Option ℤ
  pub jwt_expires_in : Option ℤ

pub record Tables : Type 1 where
  pub users : Table User user_id_of
  pub otps : Table EmailOtp otp_id
  pub resets : Table PasswordReset reset_id
  pub tokens : Table RefreshToken token_id

pub record Store (tables : Tables) : Type 0 where
  pub user_db : tables.users.Db
  pub otp_db : tables.otps.Db
  pub reset_db : tables.resets.Db
  pub token_db : tables.tokens.Db

-- What a flow does: the store after it, the changes of cookies and the events in their order.
pub record Reply (tables : Tables) (A : Type 0) : Type 0 where
  pub store : Store tables
  pub cookies : List CookieChange
  pub events : List Event
  pub result : Result A

-- `error.message`
abbrev pub message_of : Thrown → Option String
message_of (service e) = some e.message
message_of (http e) = e.message
message_of (axios_like e) = e.message
message_of (error message) = some message
message_of other = none

-- `throw new ServiceError({ code, statusCode, message: error.message ?? message })`
abbrev pub wrapped : String → ℕ → String → Thrown → Thrown
wrapped code status message t =
    service (service_error code status (coalesce (message_of t) message))

-- The same, but a ServiceError is thrown on as it is.
abbrev pub unless_service : String → ℕ → String → Thrown → Thrown
unless_service code status message (service e) = service e
unless_service code status message (http e) = wrapped code status message (http e)
unless_service code status message (axios_like e) = wrapped code status message (axios_like e)
unless_service code status message (error m) = wrapped code status message (error m)
unless_service code status message other = wrapped code status message other

abbrev name_text : Option String → String
name_text none = "undefined"
name_text (some name) = name

-- `Number(setting) || default`
abbrev pub number_or_default : Option ℤ → ℕ → ℤ
number_or_default none d = pos d
number_or_default (some (pos n)) d = if n == 0 then pos d else pos n
number_or_default (some (negsuc n)) d = negsuc n

unfoldable pub get_device_data : Env → Request → DataDevice
get_device_data env req =
    let (browser, os) = env.parse_agent req.user_agent in
    record {
      ip = elim req.forwarded_for [
        | none ↦ req.ip
        | some list ↦ let first = before_comma list in if is_empty first then req.ip else some first
      ];
      device_name = some (concat (name_text browser) (concat " on " (name_text os)));
      user_agent = req.user_agent;
    }
