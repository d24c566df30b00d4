-- ===== src/NotificationService/Requests.antt =====
-- apps/notification-service/src/modules/jwt/strategy/jwt-auth.guard.ts and the order of the guards in
-- apps/notification-service/src/app.module.ts. What a guard returns is the user that the request has
-- after it; `req.info`, which no guard reads, is left out.
pub mod Passing
pub mod Examples
use backend_core_platform.Common.Errors.{Result, ok, throws}
use backend_core_platform.Common.Permission.{Hashes, Texts, Fetched}
use backend_core_platform.Common.Permission.Guards.{RequestUser, Route, permission_can_activate}
use backend_core_platform.Common.Tokens.{
  Payload, StrategyConfig, unauthorized, notification_validate, authenticate,
}
use backend_core_platform.Base.{ℕ, String, Bool, Option, none, some, List, if◌then◌else◌}

module _ (decode : String → Option Payload) (verifies : String → String → Bool)
    (shown : Option String → String) (c : StrategyConfig) where
  abbrev user_of_token : Result RequestUser → Result (Option RequestUser)
  user_of_token (throws t) = throws t
  user_of_token (ok user) = ok (some user)

  -- The token is that of the header `Authorization`.
  unfoldable pub combined_can_activate : Route → Option String → Result (Option RequestUser)
  unfolding authenticate
  combined_can_activate route token = if route.is_public then ok none else elim token [
    | none ↦ unauthorized "Unauthorized"
    | some t ↦ user_of_token (authenticate decode verifies shown notification_validate c t)
  ]

  module _ (hashes : Hashes) (texts : Texts) (parse_int : String → ℕ)
      (join : List String → String) where
    -- Both global guards in the order of the module.
    unfoldable pub authorize :
        Route → Option String → Fetched → hashes.Store → hashes.Store × Result Bool
    unfolding combined_can_activate permission_can_activate
    authorize route token fetched s = elim (combined_can_activate route token) [
      | throws t ↦ (s, throws t)
      | ok user ↦ permission_can_activate hashes texts parse_int join route user fetched s
    ]
