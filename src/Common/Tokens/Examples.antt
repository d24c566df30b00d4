-- ===== src/Common/Tokens/Examples.antt =====
-- A concrete token of a user.

use backend_core_platform.Common.Permission.Guards.{number, token_type_can_activate}
use backend_core_platform.Common.Tokens.{
  Payload, StrategyConfig, plain_user, notification_validate, authenticate, secret_for,
}
use backend_core_platform.Common.Tokens.Acceptance.{user_only_passes}
use backend_core_platform.Base.{
  String, ◌≡◌, refl, Bool, true, Option, none, some, [], ◌==◌, Eq_ℕ, Eq_String, if◌then◌else◌,
  coalesce,
}

abbrev claims : Payload
claims = record {
  sub = "u1";
  aud = some "api";
  email = "ann@x.org";
  perm_version = number 2;
  data_user_id = none;
  data_perm_version = none;
}

abbrev pub config : StrategyConfig
config = record {
  internal_secret = "in";
  internal_audience = "internal";
  user_secret = "out";
  user_audience = "api";
}

abbrev pub decode : String → Option Payload
decode token = if token == "t" then some claims else none

-- Tokens are signed with the secret of user tokens.
abbrev pub verifies : String → String → Bool
verifies secret token = secret == "out"

abbrev pub shown : Option String → String
shown audience = coalesce audience "undefined"

user_only_passes_example :
    (p : Payload) × (decode "t" ≡ some p)
    × (verifies config.user_secret "t" ≡ true)
    × (plain_user claims ≡ plain_user p)
unfolding authenticate secret_for notification_validate token_type_can_activate
user_only_passes_example =
    user_only_passes decode verifies shown config "t" (plain_user claims) [] refl refl
