-- ===== src/Gateway/Idempotency.antt =====
-- apps/gateway/src/modules/share/idempotency.service.ts. The table of records and the request hash
-- are parameters; the cache in memory is a JavaScript Map.
pub mod Register
pub mod Replay
pub mod Writes
pub mod Once
pub mod Forever
pub mod Conflicts
pub mod Retry
pub mod Examples
use backend_core_platform.Container.JsMap
use backend_core_platform.External.Table.{Table}
use backend_core_platform.Common.Errors.ErrorCodes
use backend_core_platform.Common.Errors.{Result, ok, throws, fail}
use backend_core_platform.Base.{
  ℕ, ◌+◌, String, Bool, true, false, not, Option, none, some, List, ltb, ◌==◌, Eq_ℕ, Eq_String,
  if◌then◌else◌, is_empty, Value, truthy, undefined, null, bool, num, str, arr, obj, end, field,
}

pub data Status : Type 0 where
  processing completed failed : Status

pub record IdempotencyRecord : Type 0 where
  pub id : String
  pub key : String
  pub request_hash : String
  pub status : Status
  pub response_status : Option ℕ
  pub response_body : Value
  pub expires_at : ℕ

abbrev pub record_id : IdempotencyRecord → String
record_id r = r.id

pub record IdempotencyRequest : Type 0 where
  pub method : String
  pub path : String
  pub body : Value
  pub key : String

pub record CachedResponse : Type 0 where
  pub response : Value
  pub expires_at : ℕ

-- What `checkIdempotency` returns; `cachedResponse` is `undefined` where it is left out.
pub record Checked : Type 0 where
  pub record_id : String
  pub should_execute : Bool
  pub cached_response : Value

abbrev pub Cache : Type 0
Cache = List (String × CachedResponse)

-- `response !== null`
abbrev pub is_null : Value → Bool
is_null null = true
is_null undefined = false
is_null (bool b) = false
is_null (num n) = false
is_null (str s) = false
is_null (arr items) = false
is_null (obj fields) = false

abbrev pub is_undefined : Value → Bool
is_undefined undefined = true
is_undefined null = false
is_undefined (bool b) = false
is_undefined (num n) = false
is_undefined (str s) = false
is_undefined (arr items) = false
is_undefined (obj fields) = false

-- An entry that has expired is taken out.
unfoldable pub get_from_cache : ℕ → String → Cache → Cache × Value
get_from_cache now key cache = elim (JsMap.get key cache) [
  | none ↦ (cache, null)
  | some cached ↦
      if ltb cached.expires_at now then (JsMap.delete key cache, null) else (cache, cached.response)
]

-- For five minutes.
unfoldable pub set_cache : ℕ → String → Value → Cache → Cache
set_cache now key response cache =
    JsMap.set key (record { response = response; expires_at = now + 300000 }) cache

unfoldable pub cache_response : ℕ → String → Value → Cache → Cache
unfolding set_cache
cache_response now key response cache =
    if is_empty key then cache else set_cache now key response cache

abbrev day : ℕ
day = 86400000

abbrev pub retried : ℕ → IdempotencyRecord → IdempotencyRecord
retried now r = record r { status = processing; response_status = none; expires_at = now + day }

-- Prisma leaves a column alone whose value is given as `undefined`.
abbrev pub completed_with : ℕ → Value → IdempotencyRecord → IdempotencyRecord
completed_with status body r = record r {
  status = completed;
  response_status = some status;
  response_body = if is_undefined body then r.response_body else body;
}

abbrev pub failed_with : ℕ → Value → IdempotencyRecord → IdempotencyRecord
failed_with status error_data r = record r {
  status = failed;
  response_status = some status;
  response_body =
      if truthy error_data
      then error_data
      else obj (field "error" (str "Internal server error") end);
}

abbrev pub new_record : ℕ → String → String → String → IdempotencyRecord
new_record now id key hash = record {
  id = id;
  key = key;
  request_hash = hash;
  status = processing;
  response_status = none;
  response_body = null;
  expires_at = now + day;
}

abbrev pub has_key : String → IdempotencyRecord → Bool
has_key key r = r.key == key

module _ (table : Table IdempotencyRecord record_id) where
  open table use {Db, find_first, create, update}

  pub record State : Type 0 where
    pub cache : Cache
    pub db : table.Db

  abbrev conflict : String → State → State × Result Checked
  conflict message st = (st, fail ErrorCodes.conflict 409 message)

  -- A record with this key and the same request, by its status.
  unfoldable pub resume : ℕ → String → IdempotencyRecord → State → State × Result Checked
  resume now key r st = elim r.status [
    | completed ↦ (
      record { cache = set_cache now key r.response_body st.cache; db = st.db },
      ok (record { record_id = r.id; should_execute = false; cached_response = r.response_body }),
    )
    | processing ↦ conflict "Request is still processing" st
    | failed ↦ (
      record { cache = st.cache; db = update r.id (retried now) st.db },
      ok (record { record_id = r.id; should_execute = true; cached_response = undefined }),
    )
  ]

  -- The second step: the database. `new_id` is the id that a new record would be given.
  unfoldable pub check_database : ℕ → String → String → String → State → State × Result Checked
  unfolding resume
  check_database now new_id key hash st = elim (find_first (has_key key) st.db) [
    | some r ↦
        if not (r.request_hash == hash)
        then conflict "Idempotency key conflict: different request with same key" st
        else resume now key r st
    | none ↦ (
      record { cache = st.cache; db = create (new_record now new_id key hash) st.db },
      ok (record { record_id = new_id; should_execute = true; cached_response = undefined }),
    )
  ]

  unfoldable pub check_idempotency :
      (IdempotencyRequest → String)
      → ℕ
      → String
      → IdempotencyRequest
      → State
      → State × Result Checked
  unfolding get_from_cache check_database
  check_idempotency hash now new_id req st =
      let (cache, cached) = get_from_cache now req.key st.cache in
      let looked_up =
        check_database now new_id req.key (hash req) (record { cache = cache; db = st.db }) in
      if is_empty req.key
      then (st, ok (record { record_id = ""; should_execute = true; cached_response = undefined }))
      else if not (is_null cached)
      then (
        record { cache = cache; db = st.db },
        ok (record { record_id = ""; should_execute = false; cached_response = cached }),
      )
      else looked_up

  unfoldable pub mark_completed : String → ℕ → Value → State → State
  mark_completed id status body st =
      if is_empty id
      then st
      else record { cache = st.cache; db = update id (completed_with status body) st.db }

  unfoldable pub mark_failed : String → ℕ → Value → State → State
  mark_failed id status error_data st =
      if is_empty id
      then st
      else record { cache = st.cache; db = update id (failed_with status error_data) st.db }
