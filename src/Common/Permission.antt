-- ===== src/Common/Permission.antt =====
-- packages/common/src/permission: the cache of a user's permissions in Redis, the provider that
-- fetches them from auth-service, and the guards of a route. Redis' hashes and JSON are parameters.
pub mod Guards
pub mod Provision
pub mod Permitted
pub mod Caching
pub mod Examples
use backend_core_platform.Common.Errors.{
  Result, ok, throws, Thrown, http, axios_like, error, other, HttpException,
}
use backend_core_platform.Base.{
  ℕ, String, ◌≡◌, Bool, true, false, not, ◌||◌, Option, none, some, List, [], ◌==◌, Eq_ℕ, Eq_String,
  if◌then◌else◌, is_empty, is_some, coalesce, is_nil, any, concat, undefined, str,
}

-- The hash of a user in Redis, by its two fields.
pub record Entry : Type 0 where
  pub perm_version : String
  pub permissions : String

pub record Hashes : Type 1 where
  pub Store : Type 0
  pub hgetall : String → Store → Option Entry
  pub hset : String → Entry → Store → Store
  pub del : String → Store → Store
  pub hgetall-hset :
      (k j : String) (e : Entry) (s : Store)
      → hgetall j (hset k e s) ≡ (if k == j then some e else hgetall j s)
  pub hgetall-del :
      (k j : String) (s : Store) → hgetall j (del k s) ≡ (if k == j then none else hgetall j s)

-- `toString` of a number, and JSON of a list of permissions; `parse` is none where JSON.parse throws.
pub record Texts : Type 0 where
  pub of_number : ℕ → String
  pub stringify : List String → String
  pub parse : String → Option (List String)

abbrev pub cache_key : String → String
cache_key user_id = concat "permissions:user:" (concat user_id ":")

-- What the call of auth-service brings.
pub data Fetched : Type 0 where
  -- A reply with its status and status text, and its body where that is a list.
  answers : ℕ → String → Option (List String) → Fetched
  -- The call throws: with a response, by a refused connection, with a request only, or else.
  responds : ℕ → Fetched
  refuses unanswered unexpected : Fetched

abbrev pub unavailable : ℕ → String → Result (List String)
unavailable status message = throws (
    http (record {
      status = status;
      is_bad_request = false;
      code = none;
      response_message = str message;
      details = undefined;
      message = some message;
    }))

-- `required.some((perm) => userPermissions.includes(perm))`
abbrev pub has_permission : List String → List String → Bool
has_permission user required = any (λ p. any (λ q. q == p) user) required

module _ (hashes : Hashes) (texts : Texts) where
  open hashes use {Store, hgetall, hset, del}

  unfoldable pub cache_set : String → ℕ → List String → Store → Store
  cache_set user_id version permissions s =
      hset (cache_key user_id)
        (record {
          perm_version = texts.of_number version;
          permissions = texts.stringify permissions;
        })
        s

  -- A miss is an empty list.
  unfoldable pub cache_get : String → ℕ → Store → List String
  cache_get user_id version s = elim (hgetall (cache_key user_id) s) [
    | none ↦ []
    | some cached ↦
        if not (cached.perm_version == texts.of_number version) || is_empty cached.permissions
        then []
        else coalesce (texts.parse cached.permissions) []
  ]

  unfoldable pub invalidate : String → Store → Store
  invalidate user_id s = del (cache_key user_id) s

  unfoldable pub update_perm_version : String → ℕ → Store → Store
  unfolding cache_set
  update_perm_version user_id version s =
      if is_some (hgetall (cache_key user_id) s) then cache_set user_id version [] s else s

  pub record Provided : Type 0 where
    pub store : hashes.Store
    pub called : Bool
    pub result : Result (List String)

  abbrev fetch : String → ℕ → Fetched → Store → Provided
  fetch user_id version fetched s = elim fetched [
    | answers status status_text body ↦
        if not (status == 200)
        then record {
          store = s;
          called = true;
          result = unavailable 503 (
              concat "Auth Service error: "
                (concat (texts.of_number status) (concat " " status_text)));
        }
        else elim body [
          | none ↦ record {
            store = s;
            called = true;
            result = unavailable 503 "Invalid response format from Auth Service";
          }
          | some permissions ↦ record {
            store = cache_set user_id version permissions s;
            called = true;
            result = ok permissions;
          }
        ]
    | refuses ↦ record {
      store = s;
      called = true;
      result = unavailable 503 "Auth Service is unavailable";
    }
    | responds status ↦ record {
      store = s;
      called = true;
      result = unavailable 503 (concat "Auth Service returned error: " (texts.of_number status));
    }
    | unanswered ↦ record {
      store = s;
      called = true;
      result = unavailable 503 "Network error when fetching permissions";
    }
    | unexpected ↦ record {
      store = s;
      called = true;
      result = unavailable 500 "Failed to fetch permissions";
    }
  ]

  unfoldable pub get_permissions : String → ℕ → Fetched → Store → Provided
  unfolding cache_get cache_set
  get_permissions user_id version fetched s =
      let cached = cache_get user_id version s in
      if is_nil cached
      then fetch user_id version fetched s
      else record { store = s; called = false; result = ok cached }
