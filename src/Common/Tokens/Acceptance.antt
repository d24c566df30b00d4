-- ===== src/Common/Tokens/Acceptance.antt =====
-- Which tokens are accepted, and which of them the routes for users let pass.
use backend_core_platform.Common.Errors.{ok}
use backend_core_platform.Common.Permission.Guards.{
  RequestUser, Route, forbidden, token_type_can_activate,
}
use backend_core_platform.Common.Tokens.{
  Payload, StrategyConfig, has_audience, secret_for, internal_user, api_user, plain_user,
  validate_by, auth_validate, notification_validate, verified, authenticate,
}
use backend_core_platform.Base.{
  String, ◌≡◌, refl, ap, ◌⊎◌, inl, inr, Bool, true, false, Option, none, some, List, arith,
  Bool-cases,
}

module _ (decode : String → Option Payload) (verifies : String → String → Bool)
    (shown : Option String → String) (c : StrategyConfig) (token : String) where
  -- What an accepted token is.
  abbrev pub Accepted : (Payload → RequestUser) → RequestUser → Type 0
  Accepted user u =
      (p : Payload) × (decode token ≡ some p)
      × (((has_audience p.aud c.internal_audience ≡ true)
            × (verifies c.internal_secret token ≡ true)
            × (u ≡ internal_user p))
          ⊎ ((has_audience p.aud c.internal_audience ≡ false)
              × (has_audience p.aud c.user_audience ≡ true)
              × (verifies c.user_secret token ≡ true)
              × (u ≡ user p)))

  some_payload :
      (user : Payload → RequestUser) (u : RequestUser) (p : Payload)
      → decode token ≡ some p
      → verified decode verifies shown
          (validate_by user c)
          token
          (secret_for c shown (some p))
          (some p)
        ≡ ok u
      → Accepted user u
  unfolding secret_for
  some_payload user u p e accepted = elim (Bool-cases (has_audience p.aud c.internal_audience)) [
    | inl internal ↦ elim (Bool-cases (verifies c.internal_secret token)) [
      | inl valid ↦ (p, e, inl (internal, valid, ground (arith, accepted, internal, valid)))
      | inr forged ↦ ground (arith, accepted, internal, forged)
    ]
    | inr external ↦ elim (Bool-cases (has_audience p.aud c.user_audience)) [
      | inl by_user ↦ elim (Bool-cases (verifies c.user_secret token)) [
        | inl valid ↦ (
          p,
          e,
          inr (external, by_user, valid, ground (arith, accepted, external, by_user, valid)),
        )
        | inr forged ↦ ground (arith, accepted, external, by_user, forged)
      ]
      | inr unknown ↦ ground (arith, accepted, external, unknown)
    ]
  ]

  pub decoded :
      (user : Payload → RequestUser) (u : RequestUser) (r : Option Payload)
      → decode token ≡ r
      → verified decode verifies shown (validate_by user c) token (secret_for c shown r) r ≡ ok u
      → Accepted user u
  unfolding secret_for
  decoded user u none e accepted = cc
  decoded user u (some p) e accepted = some_payload user u p e accepted

  abbrev pub users_only : List String → Route
  users_only permissions = record {
    is_public = false;
    required_permissions = permissions;
    required_type = some "user";
  }

  -- A token that notification-service accepts and a route for users lets pass is one that jsonwebtoken
  -- verifies with the secret of user tokens, and it names the user by its subject.
  pub user_only_passes :
      (u : RequestUser) (permissions : List String)
      → authenticate decode verifies shown notification_validate c token ≡ ok u
      → token_type_can_activate (users_only permissions) (some u) ≡ ok true
      → (p : Payload) × (decode token ≡ some p)
        × (verifies c.user_secret token ≡ true)
        × (u ≡ plain_user p)
  unfolding authenticate notification_validate token_type_can_activate
  user_only_passes u permissions accepted passed =
      let (q, same, kind) = decoded plain_user u (decode token) refl accepted in
      elim kind [
        | inl (_, _, internal) ↦
            cc
              (passed, ap (λ x. token_type_can_activate (users_only permissions) (some x)) internal)
        | inr (_, _, valid, user) ↦ (q, same, valid, user)
      ]

  -- In auth-service a route for users refuses every token that its strategy accepts, those of
  -- users too, with 403: the strategy calls them `api` and not `user`.
  pub user_only_refuses :
      (u : RequestUser) (permissions : List String)
      → authenticate decode verifies shown auth_validate c token ≡ ok u
      → token_type_can_activate (users_only permissions) (some u)
        ≡ forbidden "Invalid token type for this endpoint"
  unfolding authenticate auth_validate token_type_can_activate
  user_only_refuses u permissions accepted =
      let (q, same, kind) = decoded api_user u (decode token) refl accepted in
      elim kind [
        | inl (_, _, internal) ↦
            ap (λ x. token_type_can_activate (users_only permissions) (some x)) internal
        | inr (_, _, valid, user) ↦
            ap (λ x. token_type_can_activate (users_only permissions) (some x)) user
      ]
