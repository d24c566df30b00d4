-- ===== src/NotificationService/Requests/Passing.antt =====
-- Which requests pass the guards of notification-service.
use backend_core_platform.Common.Errors.{Result, ok, Result-cases}
use backend_core_platform.Common.Permission.{Hashes, Texts, Fetched}
use backend_core_platform.Common.Permission.Guards.{
  RequestUser, Route, number, PermVersion, permission_can_activate,
}
use backend_core_platform.Common.Permission.Permitted.{
  Names, Carries, GrantedTo, permission_can_activate-Permitted,
}
use backend_core_platform.Common.Tokens.{
  Payload, StrategyConfig, has_audience, internal_user, plain_user, notification_validate,
  authenticate, secret_for,
}
use backend_core_platform.Common.Tokens.Acceptance.{decoded}
use backend_core_platform.NotificationService.Requests.{combined_can_activate, authorize}
use backend_core_platform.Base.{
  ℕ, String, ◌≡◌, refl, sym, ap, subst, ◌∙◌, ◌≢◌, ◌↔◌, ◌⊎◌, inl, inr, Bool, true, false, Option,
  none, some, List, arith, is_nil,
}

module _ (decode : String → Option Payload) (verifies : String → String → Bool)
    (shown : Option String → String) (c : StrategyConfig) (hashes : Hashes) (texts : Texts)
    (parse_int : String → ℕ) (join : List String → String) (fetched : Fetched)
    (s : hashes.Store) where
  -- A token of a service, which its secret verifies.
  abbrev ByService : String → Payload → Type 0
  ByService token p =
      (has_audience p.aud c.internal_audience ≡ true) × (verifies c.internal_secret token ≡ true)

  -- A token of a user, which its secret verifies, and whose subject has one of the permissions at the
  -- version that the token carries.
  abbrev ByUser : List String → String → Payload → Type 0
  ByUser required token p =
      (has_audience p.aud c.internal_audience ≡ false)
      × (has_audience p.aud c.user_audience ≡ true)
      × (verifies c.user_secret token ≡ true)
      × (p.perm_version ≢ number 0)
      × GrantedTo hashes texts parse_int join fetched s required p.sub p.perm_version

  abbrev pub Passes : List String → Option String → Type 0
  Passes required none = ⊥
  Passes required (some token) =
      (p : Payload) × (decode token ≡ some p) × (ByService token p ⊎ ByUser required token p)

  abbrev passed : Route → Option String → Result Bool
  passed route token =
      (authorize decode verifies shown c hashes texts parse_int join route token fetched s).1

  authorized :
      (route : Route) (token : String) (u : RequestUser)
      → route.is_public ≡ false
      → authenticate decode verifies shown notification_validate c token ≡ ok u
      → passed route (some token)
        ≡ (permission_can_activate hashes texts parse_int join route (some u) fetched s).1
  unfolding authorize combined_can_activate
  authorized route token u closed e = ground (arith, closed, e)

  module _ (route : Route) (closed : route.is_public ≡ false)
      (needs : is_nil route.required_permissions ≡ false) where
    own_user :
        (p : Payload) (id : String) (v : PermVersion)
        → Names (plain_user p) id
        → Carries (plain_user p) v
        → GrantedTo hashes texts parse_int join fetched s route.required_permissions id v
        → (p.perm_version ≢ number 0)
          × GrantedTo hashes texts parse_int join fetched s route.required_permissions p.sub
              p.perm_version
    own_user p id v (inr (e, _)) carried grants = cc e
    own_user p id v (inl e) (inr (_, e')) grants = cc e'
    own_user p id v (inl e) (inl (e', apart)) grants =
        let same : id ≡ p.sub = cc e in
        let same' : v ≡ p.perm_version = cc e' in
        (
          λ nought. apart (same' ∙ nought),
          subst
              (λ x.
                GrantedTo hashes texts parse_int join fetched s route.required_permissions x
                  p.perm_version)
              same
              (subst
                (λ x.
                  GrantedTo hashes texts parse_int join fetched s route.required_permissions id x)
                same' grants),
        )

    abbrev Permits : RequestUser → Type 0
    Permits u =
        (permission_can_activate hashes texts parse_int join route (some u) fetched s).1 ≡ ok true

    granted :
        (p : Payload)
        → Permits (plain_user p)
        → (p.perm_version ≢ number 0)
          × GrantedTo hashes texts parse_int join fetched s route.required_permissions p.sub
              p.perm_version
    granted p pass =
        elim ((permission_can_activate-Permitted hashes texts parse_int join fetched s route
            (plain_user p)).0
          pass) [
            | inl open_route ↦ cc (open_route, closed)
            | inr (inl free) ↦ cc (ap is_nil free, needs)
            | inr (inr (inl internal)) ↦ cc internal
            | inr (inr (inr (id, v, named, carried, grants))) ↦ own_user p id v named carried grants
          ]

    permitted :
        (token : String) (u : RequestUser)
        → authenticate decode verifies shown notification_validate c token ≡ ok u
        → Permits u
        → Passes route.required_permissions (some token)
    unfolding authenticate notification_validate
    permitted token u e pass =
        let (p, same, kind) =
          decoded decode verifies shown c token plain_user u (decode token) refl e in
        elim kind [
          | inl (internal, valid, _) ↦ (p, same, inl (internal, valid))
          | inr (external, by_user, valid, user) ↦
              let (carried, grants) = granted p (subst (λ x. Permits x) user pass) in
              (p, same, inr (external, by_user, valid, carried, grants))
        ]

    passing :
        (token : Option String)
        → passed route token ≡ ok true
        → Passes route.required_permissions token
    unfolding authorize combined_can_activate
    passing none e = ground (arith, e, closed)
    passing (some token) e =
        elim (Result-cases (authenticate decode verifies shown notification_validate c token)) [
          | inl (u, accepted) ↦
              permitted token u accepted (sym (authorized route token u closed accepted) ∙ e)
          | inr (t, refused) ↦ ground (arith, e, closed, refused)
        ]

    by_service :
        (token : String) (p : Payload)
        → decode token ≡ some p
        → ByService token p
        → passed route (some token) ≡ ok true
    unfolding authenticate notification_validate secret_for
    by_service token p e (internal, valid) =
        authorized route token (internal_user p) closed (ground (arith, e, internal, valid))
        ∙ (permission_can_activate-Permitted hashes texts parse_int join fetched s route
              (internal_user p)).1
            (inr (inr (inl refl)))

    by_user :
        (token : String) (p : Payload)
        → decode token ≡ some p
        → ByUser route.required_permissions token p
        → passed route (some token) ≡ ok true
    unfolding authenticate notification_validate secret_for
    by_user token p e (external, known, valid, carried, grants) =
        authorized route token (plain_user p) closed (ground (arith, e, external, known, valid))
        ∙ (permission_can_activate-Permitted hashes texts parse_int join fetched s route
              (plain_user p)).1
            (inr (inr (inr (p.sub, p.perm_version, inl refl, inl (refl, carried), grants))))

    -- On a route that is not public and requires permissions: a request passes both global guards of
    -- notification-service exactly when it brings a token that claims the audience of services and
    -- verifies with their secret, or one that claims the audience of users, verifies with the secret
    -- of users, names a user, carries a version other than the number 0, and whose user has one of
    -- the required permissions at that version: by what Redis holds for it, or, where Redis holds
    -- nothing for it, by what auth-service answers with.
    pub authorize_iff :
        (token : Option String)
        → ((authorize decode verifies shown c hashes texts parse_int join route token fetched s).1
            ≡ ok true)
          ↔ Passes route.required_permissions token
    authorize_iff none = (passing none, λ h. elim h [ ])
    authorize_iff (some token) = (
      passing (some token),
      λ h.
          let (p, e, kind) = h in
          elim kind [
            | inl service ↦ by_service token p e service
            | inr user ↦ by_user token p e user
          ],
    )
