-- ===== src/Common/Permission/Guards.antt =====
-- packages/common/src/permission/{permission.guard,token-type.guard}.ts
use backend_core_platform.Common.Errors.{Result, ok, throws, http}
use backend_core_platform.Common.Permission.{
  Hashes, Texts, Fetched, get_permissions, has_permission,
}
use backend_core_platform.Base.{
  ℕ, String, ◌≡◌, refl, sym, ap, ◌∙◌, ◌↔◌, ◌⊎◌, inl, inr, Bool, true, false, not, ◌||◌, Option,
  none, some, List, arith, ◌==◌, Eq_ℕ, Eq_String, if◌then◌else◌, is_empty, coalesce, or_text,
  Bool-cases, is_nil, concat, undefined, str,
}

-- `permVersion` of a token: a number or a text.
pub data PermVersion : Type 0 where
  number : ℕ → PermVersion
  text : String → PermVersion

-- `request.user`, and `request.user.data`.
pub record RequestUser : Type 0 where
  pub kind : Option String
  pub user_id : Option String
  pub perm_version : Option PermVersion
  pub data_user_id : Option String
  pub data_perm_version : Option PermVersion

abbrev pub anonymous : RequestUser
anonymous = record {
  kind = none;
  user_id = none;
  perm_version = none;
  data_user_id = none;
  data_perm_version = none;
}

-- `(user?.userId ?? 0) !== 0 ? user?.userId : user?.data?.userId`
abbrev pub context_user_id : RequestUser → Option String
context_user_id u = elim u.user_id [ none ↦ u.data_user_id | some id ↦ some id ]

abbrev pub context_perm_version : RequestUser → Option PermVersion
context_perm_version u = elim u.perm_version [
  | none ↦ u.data_perm_version
  | some v ↦ elim v [
    | number n ↦ if n == 0 then u.data_perm_version else some (number n)
    | text s ↦ some (text s)
  ]
]

abbrev pub forbidden : {A : Type 0} → String → Result A
forbidden message = throws (
    http (record {
      status = 403;
      is_bad_request = false;
      code = none;
      response_message = str message;
      details = undefined;
      message = some message;
    }))

-- The decorators of a route.
pub record Route : Type 0 where
  pub is_public : Bool
  pub required_permissions : List String
  pub required_type : Option String

unfoldable pub token_type_can_activate : Route → Option RequestUser → Result Bool
token_type_can_activate route user = if route.is_public then ok true else elim route.required_type [
  | none ↦ ok true
  | some required ↦
      if is_empty required
      then ok true
      else (let actual = or_text (coalesce user anonymous).kind "" in
          if is_empty actual || not (actual == required)
          then forbidden "Invalid token type for this endpoint"
          else ok true)
]

module _ (hashes : Hashes) (texts : Texts) (parse_int : String → ℕ)
    (join : List String → String) where
  abbrev pub version_of : PermVersion → ℕ
  version_of (number n) = n
  version_of (text s) = parse_int s

  abbrev pub judge : List String → Result (List String) → Result Bool
  judge required (throws t) = throws t
  judge required (ok permissions) =
      if has_permission permissions required
      then ok true
      else forbidden (concat "Insufficient permissions. Required: [" (concat (join required) "]"))

  -- From the check of the user's context on.
  abbrev pub consult :
      List String
      → Option String
      → Option PermVersion
      → Fetched
      → hashes.Store
      → hashes.Store × Result Bool
  consult required none v fetched s = (s, forbidden "Missing user context for permission check")
  consult required (some user_id) none fetched s =
      (s, forbidden "Missing user context for permission check")
  consult required (some user_id) (some v) fetched s =
      let provided = get_permissions hashes texts user_id (version_of v) fetched s in
      if is_empty user_id
      then (s, forbidden "Missing user context for permission check")
      else (provided.store, judge required provided.result)

  -- A user that is missing is read like one without any field.
  unfoldable pub permission_can_activate :
      Route → Option RequestUser → Fetched → hashes.Store → hashes.Store × Result Bool
  permission_can_activate route user fetched s =
      let u = coalesce user anonymous in
      if route.is_public
      then (s, ok true)
      else if is_nil route.required_permissions
      then (s, ok true)
      else if coalesce u.kind "" == "internal"
      then (s, ok true)
      else consult route.required_permissions (context_user_id u) (context_perm_version u) fetched s

  -- The permissions of a user, from the cache or from auth-service; none without a context.
  abbrev pub permissions_of :
      Option String → Option PermVersion → Fetched → hashes.Store → Option (List String)
  permissions_of none v fetched s = none
  permissions_of (some user_id) none fetched s = none
  permissions_of (some user_id) (some v) fetched s =
      if is_empty user_id
      then none
      else elim (get_permissions hashes texts user_id (version_of v) fetched s).result [
        | ok permissions ↦ some permissions
        | throws t ↦ none
      ]

  abbrev pub Grants : List String → Option (List String) → Type 0
  Grants required none = ⊥
  Grants required (some permissions) = has_permission permissions required ≡ true

  judge_iff :
      (required : List String) (r : Result (List String))
      → (judge required r ≡ ok true)
        ↔ Grants required (elim r [ ok permissions ↦ some permissions | throws t ↦ none ])
  judge_iff required (ok p) = (λ e. ground (arith, e), λ granted. ground (arith, granted))
  judge_iff required (throws t) = (λ e. cc, λ granted. elim granted [ ])

  consult_iff :
      (required : List String) (id : Option String) (v : Option PermVersion) (fetched : Fetched)
      (s : hashes.Store)
      → ((consult required id v fetched s).1 ≡ ok true)
        ↔ Grants required (permissions_of id v fetched s)
  consult_iff required none v fetched s = (λ e. cc, λ granted. elim granted [ ])
  consult_iff required (some id) none fetched s = (λ e. cc, λ granted. elim granted [ ])
  consult_iff required (some id) (some v) fetched s = elim (Bool-cases (is_empty id)) [
    | inl unnamed ↦ rw unnamed (λ e. cc, λ granted. elim granted [ ])
    | inr named ↦
        rw named
          (judge_iff required (get_permissions hashes texts id (version_of v) fetched s).result)
  ]

  -- The guard lets a request pass exactly when the route is public, or requires no permission, or the
  -- token is internal, or the permissions of its user, by the cache or auth-service, have at least one
  -- of those that the route requires; without a user id or a version it does not ask for them.
  pub permission_can_activate_iff :
      (route : Route) (u : RequestUser) (fetched : Fetched) (s : hashes.Store)
      → ((permission_can_activate route (some u) fetched s).1 ≡ ok true) ↔ (
          (route.is_public ≡ true)
          ⊎ ((is_nil route.required_permissions ≡ true)
              ⊎ (((coalesce u.kind "" == "internal") ≡ true)
                  ⊎ Grants route.required_permissions
                      (permissions_of (context_user_id u) (context_perm_version u) fetched s))))
  unfolding permission_can_activate
  permission_can_activate_iff route u fetched s = elim (Bool-cases route.is_public) [
    | inl open_route ↦ (λ e. inl open_route, λ h. ground (arith, open_route))
    | inr closed ↦ elim (Bool-cases (is_nil route.required_permissions)) [
      | inl free ↦ (λ e. inr (inl free), λ h. ground (arith, closed, free))
      | inr needs ↦ elim (Bool-cases (coalesce u.kind "" == "internal")) [
        | inl internal ↦
            (λ e. inr (inr (inl internal)), λ h. ground (arith, closed, needs, internal))
        | inr external ↦
            let iff =
              consult_iff route.required_permissions (context_user_id u) (context_perm_version u)
                fetched s in
            let computed : permission_can_activate route (some u) fetched s
                ≡ consult route.required_permissions (context_user_id u) (context_perm_version u)
                    fetched s =
              rw closed (rw needs (rw external refl)) in
            (
              λ e. inr (inr (inr (iff.0 (ap (λ x. x.1) (sym computed) ∙ e)))),
              λ h. elim h [
                | inl p ↦ cc (p, closed)
                | inr h' ↦ elim h' [
                  | inl p ↦ cc (p, needs)
                  | inr h'' ↦ elim h'' [
                    | inl p ↦ cc (p, external)
                    | inr granted ↦ ap (λ x. x.1) computed ∙ iff.1 granted
                  ]
                ]
              ],
            )
      ]
    ]
  ]
