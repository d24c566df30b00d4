-- ===== src/Common/Tokens.antt =====
-- apps/{auth-service,notification-service}/src/modules/jwt/strategy/jwt.strategy.ts: the combined
-- strategy, as passport-jwt runs it: it picks the secret by the audience that the token claims,
-- verifies the token with it, and validates its payload. Both services have one each.
pub mod Acceptance
pub mod Examples
use backend_core_platform.Common.Errors.{Result, ok, throws, Thrown, http, error}
use backend_core_platform.Common.Permission.Guards.{RequestUser, PermVersion}
use backend_core_platform.Base.{
  String, Bool, false, Option, none, some, ◌==◌, Eq_ℕ, Eq_String, if◌then◌else◌, is_empty, or_text,
  concat, undefined, str,
}

-- The claims of a token, internal or of a user.
pub record Payload : Type 0 where
  pub sub : String
  pub aud : Option String
  pub email : String
  pub perm_version : PermVersion
  -- `data.userId` and `data.permVersion` of an internal token.
  pub data_user_id : Option String
  pub data_perm_version : Option PermVersion

pub record StrategyConfig : Type 0 where
  pub internal_secret : String
  pub internal_audience : String
  pub user_secret : String
  pub user_audience : String

-- What the constructor makes of the configuration, where a missing secret throws.
unfoldable pub strategy_config :
    Option String → Option String → Option String → Option String → Result StrategyConfig
strategy_config internal_secret user_secret internal_audience user_audience =
    if is_empty (or_text internal_secret "")
    then throws (error "INTERNAL_JWT_SECRET is required")
    else if is_empty (or_text user_secret "")
    then throws (error "JWT_SECRET is required")
    else ok (record {
      internal_secret = or_text internal_secret "";
      internal_audience = or_text internal_audience "internal";
      user_secret = or_text user_secret "";
      user_audience = or_text user_audience "api";
    })

abbrev pub unauthorized : {A : Type 0} → String → Result A
unauthorized message = throws (
    http (record {
      status = 401;
      is_bad_request = false;
      code = none;
      response_message = str message;
      details = undefined;
      message = some message;
    }))

-- The audience is one text or there is none, and a text is never equal to a missing one.
abbrev pub has_audience : Option String → String → Bool
has_audience none audience = false
has_audience (some a) audience = a == audience

-- `secretOrKeyProvider`, of what `jwt.decode` gives; `shown` is the audience as the message shows it.
unfoldable pub secret_for :
    StrategyConfig → (Option String → String) → Option Payload → Result String
secret_for c shown none = unauthorized "Invalid token format"
secret_for c shown (some decoded) =
    if has_audience decoded.aud c.internal_audience
    then ok c.internal_secret
    else if has_audience decoded.aud c.user_audience
    then ok c.user_secret
    else unauthorized (concat "Unknown token audience: " (shown decoded.aud))

abbrev pub internal_user : Payload → RequestUser
internal_user p = record {
  kind = some "internal";
  user_id = none;
  perm_version = none;
  data_user_id = p.data_user_id;
  data_perm_version = p.data_perm_version;
}

-- A user's token in auth-service, and in notification-service.
abbrev pub api_user : Payload → RequestUser
api_user p = record {
  kind = some "api";
  user_id = none;
  perm_version = none;
  data_user_id = some p.sub;
  data_perm_version = some p.perm_version;
}

abbrev pub plain_user : Payload → RequestUser
plain_user p = record {
  kind = some "user";
  user_id = some p.sub;
  perm_version = some p.perm_version;
  data_user_id = none;
  data_perm_version = none;
}

-- `validate`, by what it makes of a user's token.
abbrev validate_by : (Payload → RequestUser) → StrategyConfig → Payload → Result RequestUser
validate_by user c p =
    if has_audience p.aud c.internal_audience
    then ok (internal_user p)
    else if has_audience p.aud c.user_audience
    then ok (user p)
    else unauthorized "Invalid token type"

unfoldable pub auth_validate : StrategyConfig → Payload → Result RequestUser
auth_validate c p = validate_by api_user c p

unfoldable pub notification_validate : StrategyConfig → Payload → Result RequestUser
notification_validate c p = validate_by plain_user c p

-- jsonwebtoken: what a token decodes to without verification, and whether it verifies by a secret,
-- its time of expiry included.
module _ (decode : String → Option Payload) (verifies : String → String → Bool)
    (shown : Option String → String) where
  abbrev verified :
      (Payload → Result RequestUser) → String → Result String → Option Payload → Result RequestUser
  verified validate token (throws t) decoded = unauthorized "Unauthorized"
  verified validate token (ok secret) none = unauthorized "Unauthorized"
  verified validate token (ok secret) (some p) =
      if verifies secret token then validate p else unauthorized "Unauthorized"

  -- passport-jwt with the strategy of a service: a failure before `validate` is the 401 of
  -- @nestjs/passport, whatever the reason, and what `validate` throws is thrown.
  unfoldable pub authenticate :
      (StrategyConfig → Payload → Result RequestUser) → StrategyConfig → String → Result RequestUser
  unfolding secret_for
  authenticate validate c token =
      verified (validate c) token (secret_for c shown (decode token)) (decode token)
