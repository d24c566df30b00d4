-- ===== src/Common/Permission/Permitted.antt =====
-- Whom the permission guard lets pass, told by what the hash in Redis holds and what auth-service
-- answers.
use backend_core_platform.Container.JsSet
use backend_core_platform.Container.JsSet.{has}
use backend_core_platform.Container.SetTests.{any_entry, entry_any}
use backend_core_platform.Common.Errors.{ok, Result-cases}
use backend_core_platform.Common.Permission.{
  Hashes, Texts, Fetched, get_permissions, has_permission,
}
use backend_core_platform.Common.Permission.Guards.{
  PermVersion, number, text, RequestUser, Route, context_user_id, context_perm_version, version_of,
  permissions_of, Grants, permission_can_activate, permission_can_activate_iff,
}
use backend_core_platform.Base.{
  ℕ, String, ◌≡◌, refl, sym, ap, subst, ◌∙◌, ◌≢◌, ◌↔◌, ◌⊎◌, inl, inr, true, Option, none, some,
  List, [], ◌∷◌, arith, eq_iff, ◌==◌, Eq_ℕ, Eq_String, is_empty, coalesce, Bool-cases, Option-cases,
  any,
}
use backend_core_platform.Common.Permission.Provision.{nil_of, Provides, get_permissions-Provides}

has-any : (q : String) (xs : List String) → any (λ x. x == q) xs ≡ has q xs
unfolding JsSet.has
has-any q [] = refl
has-any q (x ∷ xs) = ground (arith, has-any q xs)

-- One of the required permissions is among those of the user.
abbrev pub Shares : List String → List String → Type 0
Shares permissions required = (q : String) × (has q required ≡ true) × (has q permissions ≡ true)

has_permission-Shares :
    (permissions required : List String)
    → (has_permission permissions required ≡ true) ↔ Shares permissions required
has_permission-Shares permissions required = (
  λ h.
      let (q, wanted, held) = any_entry (λ p. any (λ x. x == p) permissions) required h in
      (q, wanted, sym (has-any q permissions) ∙ held),
  λ (q, wanted, held).
      entry_any (λ p. any (λ x. x == p) permissions) q required wanted
        (has-any q permissions ∙ held),
)

-- The user that a token names: in `userId`, or, where that is missing, in `data.userId`.
abbrev pub Names : RequestUser → String → Type 0
Names u id = (u.user_id ≡ some id) ⊎ ((u.user_id ≡ none) × (u.data_user_id ≡ some id))

-- The version that a token carries: in `permVersion`, or, where that is missing or 0, in `data`.
abbrev pub Carries : RequestUser → PermVersion → Type 0
Carries u v =
    ((u.perm_version ≡ some v) × (v ≢ number 0))
    ⊎ (((u.perm_version ≡ none) ⊎ (u.perm_version ≡ some (number 0)))
        × (u.data_perm_version ≡ some v))

context_user_id-Names : (u : RequestUser) (id : String) → (context_user_id u ≡ some id) ↔ Names u id
context_user_id-Names u id = elim (Option-cases u.user_id) [
  | inl missing ↦ rw missing (λ e. inr (refl, e), λ h. elim h [ inl e ↦ cc | inr (_, e) ↦ e ])
  | inr (x, given) ↦ rw given (λ e. inl e, λ h. elim h [ inl e ↦ e | inr (e, _) ↦ cc ])
]

given_version_iff :
    (u : RequestUser) (w v : PermVersion)
    → u.perm_version ≡ some w
    → (context_perm_version u ≡ some v) ↔ Carries u v
given_version_iff u (text t) v given = rw given (
  λ e. inl (e, λ nought. cc),
  λ h. elim h [ inl (e, _) ↦ e | inr (inl e, _) ↦ cc | inr (inr e, _) ↦ cc ],
)
given_version_iff u (number n) v given = elim (Bool-cases (n == 0)) [
  | inl nought ↦ rw given (
      rw nought (
        λ e. inr (inr (ground (arith, nought)), e),
        λ h. elim h [
          | inl (e, apart) ↦ absurd (apart (ground (arith, e, nought)))
          | inr (_, e) ↦ e
        ],
      ))
  | inr more ↦ rw given (
      rw more (
        λ e. inl (e, λ nought. ground (arith, e, nought, more)),
        λ h. elim h [
          | inl (e, _) ↦ e
          | inr (inl e, _) ↦ cc
          | inr (inr e, _) ↦ absurd (ground (arith, e, more))
        ],
      ))
]

context_perm_version-Carries :
    (u : RequestUser) (v : PermVersion) → (context_perm_version u ≡ some v) ↔ Carries u v
context_perm_version-Carries u v = elim (Option-cases u.perm_version) [
  | inl missing ↦
      rw missing (λ e. inr (inl refl, e), λ h. elim h [ inl (e, _) ↦ cc | inr (_, e) ↦ e ])
  | inr (w, given) ↦ given_version_iff u w v given
]

kind_of : (k : Option String) → (coalesce k "" == "internal") ≡ true → k ≡ some "internal"
kind_of none h = cc h
kind_of (some k) h = ap some ((eq_iff k "internal").0 h)

module _ (hashes : Hashes) (texts : Texts) (parse_int : String → ℕ) (join : List String → String)
    (fetched : Fetched) (s : hashes.Store) where
  -- The user has one of the required permissions at the version.
  abbrev pub GrantedTo : List String → String → PermVersion → Type 0
  GrantedTo required id v =
      (ps : List String) × (id ≢ "")
      × Provides hashes texts id (version_of hashes texts parse_int join v) fetched s ps
      × Shares ps required

  -- The user that the token names has one of the required permissions at the version that the token
  -- carries.
  abbrev pub Permitted : List String → RequestUser → Type 0
  Permitted required u =
      (id : String) × (v : PermVersion) × Names u id × Carries u v × GrantedTo required id v

  abbrev Granted : List String → Option String → Option PermVersion → Type 0
  Granted required named carried =
      Grants hashes texts parse_int join required
        (permissions_of hashes texts parse_int join named carried fetched s)

  granted_to :
      (required : List String) (id : String) (v : PermVersion)
      → Granted required (some id) (some v) ↔ GrantedTo required id v
  granted_to required id v = elim (Bool-cases (is_empty id)) [
    | inl blank ↦
        rw blank (
          λ h. elim h [ ],
          λ (_, named, _, _). absurd (named (ground (arith, blank, eq_iff id ""))),
        )
    | inr filled ↦
        let version = version_of hashes texts parse_int join v in
        let named : id ≢ "" = λ same. ground (arith, filled, same, eq_iff id "") in
        elim (Result-cases (get_permissions hashes texts id version fetched s).result) [
          | inl (ps, e) ↦ rw filled (
              rw e (
                λ h. (
                  ps,
                  named,
                  (get_permissions-Provides hashes texts id version s fetched ps).0 e,
                  (has_permission-Shares ps required).0 h,
                ),
                λ (qs, _, provided, shares).
                    let all =
                      (get_permissions-Provides hashes texts id version s fetched qs).1 provided in
                    let same : qs ≡ ps = cc (e, all) in
                    (has_permission-Shares ps required).1
                      (subst (λ x. Shares x required) same shares),
              ))
          | inr (t, e) ↦ rw filled (
              rw e (
                λ h. elim h [ ],
                λ (qs, _, provided, _).
                    cc (
                      e,
                      (get_permissions-Provides hashes texts id version s fetched qs).1 provided,
                    ),
              ))
        ]
  ]

  permissions_of-Granted :
      (required : List String) (named : Option String) (carried : Option PermVersion)
      → Granted required named carried ↔ (
          (id : String) × (v : PermVersion) × (named ≡ some id)
          × (carried ≡ some v)
          × GrantedTo required id v)
  permissions_of-Granted required none carried = (λ h. elim h [ ], λ (id, v, e, _, _). cc)
  permissions_of-Granted required (some id) none = (λ h. elim h [ ], λ (id', v, _, e, _). cc)
  permissions_of-Granted required (some id) (some v) = (
    λ h. (id, v, refl, refl, (granted_to required id v).0 h),
    λ (id', v', e, e', h). (granted_to required id v).1 (
        let same : id' ≡ id = cc e in
        let same' : v' ≡ v = cc e' in
        subst (λ x. GrantedTo required x v) same (subst (λ x. GrantedTo required id' x) same' h)),
  )

  pub context-Permitted :
      (required : List String) (u : RequestUser)
      → Granted required (context_user_id u) (context_perm_version u) ↔ Permitted required u
  context-Permitted required u =
      let iff = permissions_of-Granted required (context_user_id u) (context_perm_version u) in
      (
        λ h.
            let (id, v, e, e', granted) = iff.0 h in
            (
              id,
              v,
              (context_user_id-Names u id).0 e,
              (context_perm_version-Carries u v).0 e',
              granted,
            ),
        λ (id, v, named, carried, granted). iff.1 (
          id,
          v,
          (context_user_id-Names u id).1 named,
          (context_perm_version-Carries u v).1 carried,
          granted,
        ),
      )

  -- The guard lets a request pass exactly when the route is public, or requires no permission, or the
  -- token is of a service, or the user that the token names has at least one of the permissions
  -- that the route requires at the version that the token carries: by what Redis holds for that
  -- version, or, where it holds nothing for it, by what auth-service answers with.
  pub permission_can_activate-Permitted :
      (route : Route) (u : RequestUser)
      → ((permission_can_activate hashes texts parse_int join route (some u) fetched s).1 ≡ ok true)
        ↔ ((route.is_public ≡ true)
            ⊎ ((route.required_permissions ≡ [])
                ⊎ ((u.kind ≡ some "internal") ⊎ Permitted route.required_permissions u)))
  permission_can_activate-Permitted route u =
      let iff = permission_can_activate_iff hashes texts parse_int join route u fetched s in
      (
        λ e. elim (iff.0 e) [
          | inl open_route ↦ inl open_route
          | inr (inl free) ↦ inr (inl (nil_of free))
          | inr (inr (inl internal)) ↦ inr (inr (inl (kind_of u.kind internal)))
          | inr (inr (inr grants)) ↦
              inr (inr (inr ((context-Permitted route.required_permissions u).0 grants)))
        ],
        λ h. elim h [
          | inl open_route ↦ iff.1 (inl open_route)
          | inr (inl free) ↦ iff.1 (inr (inl (rw free refl)))
          | inr (inr (inl internal)) ↦ iff.1 (inr (inr (inl (rw internal refl))))
          | inr (inr (inr permitted)) ↦
              iff.1 (inr (inr (inr ((context-Permitted route.required_permissions u).1 permitted))))
        ],
      )
