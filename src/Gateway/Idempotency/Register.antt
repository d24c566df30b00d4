-- ===== src/Gateway/Idempotency/Register.antt =====
-- apps/gateway/src/modules/client/auth-service/auth/auth-client.service.ts: `register`, the call
-- that goes through the idempotency service.
use backend_core_platform.External.Table.{Table}
use backend_core_platform.Common.Errors.{
  Result, ok, throws, Thrown, service, axios_like, ErrorBody, AxiosLikeError,
}
use backend_core_platform.Common.Errors.Axios.{handle_axios_error}
use backend_core_platform.Gateway.Idempotency.{
  IdempotencyRecord, IdempotencyRequest, Checked, State, record_id, is_undefined, check_idempotency,
  cache_response, mark_completed, mark_failed,
}
use backend_core_platform.Base.{
  ℕ, String, Bool, true, false, not, ◌&&◌, Option, none, some, leb, if◌then◌else◌, is_empty,
  or_text, Value, prop, as_text, str, obj, end, field,
}

-- The request that `register` hands to `checkIdempotency`.
unfoldable pub register_request : String → Value → Option String → IdempotencyRequest
register_request request_path register_dto idempotency_key = record {
  method = "POST";
  path = or_text (some request_path) "/client/auth/register";
  body = register_dto;
  key = or_text idempotency_key "";
}

-- What auth-service answers, or what the HTTP client throws.
pub data Upstream : Type 0 where
  replies : ℕ → Value → Upstream
  breaks : Thrown → Upstream

-- `response.data as ErrorBody`: a field that is not of its declared type is read as missing.
unfoldable pub error_body : Value → ErrorBody
error_body v = record {
  message_key = as_text (prop "messageKey" v);
  message = as_text (prop "message" v);
  errors = prop "errors" v;
  error_code = as_text (prop "code" (prop "error" v));
  error_message = as_text (prop "message" (prop "error" v));
  error_details = prop "details" (prop "error" v);
}

-- `{ response: { status, data } }`
unfoldable pub response_error : ℕ → Value → AxiosLikeError
unfolding error_body
response_error status body = record {
  status = some status;
  body = some (error_body body);
  message = none;
}

-- What the caller of `register` gets, and whether auth-service was called.
pub record Registered : Type 0 where
  pub result : Result Value
  pub called : Bool

-- The times of `checkIdempotency` and of `cacheResponse`, and the id of a new record.
pub record Moment : Type 0 where
  pub start : ℕ
  pub finish : ℕ
  pub new_id : String

-- `err instanceof Error ? err.message : String(err)` is the parameter `describe`.
module _ (table : Table IdempotencyRecord record_id) (hash : IdempotencyRequest → String)
    (describe : Thrown → String) where
  abbrev pub crash_data : Thrown → Value
  crash_data t =
      obj (field "error" (str "Internal server error") (field "details" (str (describe t)) end))

  -- The `catch` block.
  unfoldable pub recover : String → Thrown → Bool → State table → State table × Registered
  recover id t called st = (
    mark_failed table id 500 (crash_data t) st,
    record {
      result = throws (service (handle_axios_error t "Register request failed"));
      called = called;
    },
  )

  unfoldable pub execute : ℕ → String → String → Upstream → State table → State table × Registered
  unfolding recover response_error
  execute now key id (breaks t) st = recover id t true st
  execute now key id (replies status body) st =
      if leb 400 status
      then recover id
          (service (
            handle_axios_error (axios_like (response_error status body))
              "Auth service request failed"))
          true (mark_failed table id status body st)
      else if is_empty id
      then (st, record { result = ok body; called = true })
      else (
        record {
          cache = cache_response now key body st.cache;
          db = (mark_completed table id status body st).db;
        },
        record { result = ok body; called = true },
      )

  unfoldable pub after_check :
      ℕ → String → Upstream → State table × Result Checked → State table × Registered
  unfolding execute
  after_check now key upstream (st, throws t) = recover "" t false st
  after_check now key upstream (st, ok c) =
      if not c.should_execute && not (is_undefined c.cached_response)
      then (st, record { result = ok c.cached_response; called = false })
      else execute now key c.record_id upstream st

  unfoldable pub register :
      Moment → IdempotencyRequest → Upstream → State table → State table × Registered
  unfolding after_check
  register at req upstream st =
      after_check at.finish req.key upstream
        (check_idempotency table hash at.start at.new_id req st)
