-- ===== src/Common/Errors/Filter.antt =====
-- packages/common/src/errors/http-exception.filter.ts: the reply that any thrown value becomes.
use backend_core_platform.Common.Errors.ErrorCodes
use backend_core_platform.Common.Errors.{
  ServiceError, HttpException, Thrown, service, http, axios_like, error, other,
}
use backend_core_platform.Base.{
  ℕ, String, Bool, false, ◌&&◌, ◌||◌, Option, none, some, List, [], ◌∷◌, leb, ◌==◌, Eq_ℕ, Eq_String,
  if◌then◌else◌, coalesce, Value, Items, truthy, undefined, null, arr, nil, cons,
}

pub data Level : Type 0 where
  warn_level error_level : Level

pub record ErrorReply : Type 0 where
  pub status_code : ℕ
  pub message_key : String
  pub message : String
  pub errors : Option (List String)
  -- The level and the message of the log entry, if one is written.
  pub log : Option (Level × String)

unfoldable pub default_code_for_status : ℕ → String
default_code_for_status status =
    if status == 400
    then ErrorCodes.validation_error
    else if status == 401
    then ErrorCodes.unauthorized
    else if status == 403
    then ErrorCodes.forbidden
    else if status == 404
    then ErrorCodes.not_found
    else if status == 409
    then ErrorCodes.conflict
    else if status == 429
    then ErrorCodes.too_many_requests
    else ErrorCodes.internal

unfoldable pub should_skip_log404 : Option String → Bool
should_skip_log404 none = false
should_skip_log404 (some path) =
    path == "/.well-known/appspecific/com.chrome.devtools.json" || path == "/favicon.ico"

-- `String(value)` is a parameter; so is `join(', ')`, of the texts that it gives.
module _ (to_text : Value → String) (join : List String → String) where
  abbrev pub texts : Items → List String
  texts nil = []
  texts (cons v rest) = to_text v ∷ texts rest

  abbrev list_of : Value → List String
  list_of (arr items) = texts items
  list_of v = to_text v ∷ []

  -- `undefined` where the details are falsy.
  unfoldable pub errors_of : Value → Option (List String)
  errors_of details = if truthy details then some (list_of details) else none

  abbrev message_text : Value → String → String
  message_text undefined fallback = fallback
  message_text null fallback = fallback
  message_text (arr items) fallback = join (texts items)
  message_text v fallback = to_text v

  unfoldable pub service_reply : ServiceError → ErrorReply
  unfolding errors_of
  service_reply e = record {
    status_code = e.status_code;
    message_key = e.code;
    message = if e.expose_message then e.message else "Request failed";
    errors = errors_of e.details;
    log = some (if leb 500 e.status_code then error_level else warn_level, e.message);
  }

  unfoldable pub validation_reply : HttpException → ErrorReply
  unfolding errors_of
  validation_reply e = record {
    status_code = e.status;
    message_key = ErrorCodes.validation_error;
    message = "Validation failed";
    errors = errors_of e.response_message;
    log = some (warn_level, "validation_failed");
  }

  unfoldable pub http_reply : Option String → HttpException → ErrorReply
  unfolding errors_of default_code_for_status should_skip_log404
  http_reply path e =
      let raw = message_text e.response_message (coalesce e.message "Request failed") in
      record {
        status_code = e.status;
        message_key = coalesce e.code (default_code_for_status e.status);
        message = if leb 500 e.status then "Internal server error" else raw;
        errors = errors_of e.details;
        log = if e.status == 404 && should_skip_log404 path then none else some (warn_level, raw);
      }

  unfoldable pub unknown_reply : ErrorReply
  unknown_reply = record {
    status_code = 500;
    message_key = ErrorCodes.internal;
    message = "Internal server error";
    errors = none;
    log = some (error_level, "unhandled_exception");
  }

  -- The reply to a request of the given path, where the headers are not sent yet.
  unfoldable pub catch : Option String → Thrown → ErrorReply
  unfolding service_reply validation_reply http_reply unknown_reply
  catch path (service e) = service_reply e
  catch path (http e) = if e.is_bad_request then validation_reply e else http_reply path e
  catch path (axios_like e) = unknown_reply
  catch path (error message) = unknown_reply
  catch path other = unknown_reply
