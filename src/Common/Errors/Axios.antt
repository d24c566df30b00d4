-- ===== src/Common/Errors/Axios.antt =====
-- packages/common/src/errors/error-axios.ts
use backend_core_platform.Common.Errors.ErrorCodes
use backend_core_platform.Common.Errors.{
  ServiceError, ErrorBody, AxiosLikeError, Thrown, service, http, axios_like, error, other,
  service_error,
}
use backend_core_platform.Base.{
  ℕ, String, true, Option, none, some, leb, ◌==◌, Eq_ℕ, Eq_String, if◌then◌else◌, coalesce, Value,
  or_else, undefined,
}

abbrev first {ℓ} : {A : Type ℓ} → Option A → Option A → Option A
first none b = b
first (some a) b = some a

-- The code that a status stands for when the body names none.
unfoldable pub code_for_status : ℕ → String
code_for_status status =
    if status == 401
    then ErrorCodes.auth_token_invalid
    else if status == 404
    then ErrorCodes.not_found
    else ErrorCodes.internal

abbrev body_field {ℓ} : {A : Type ℓ} → (ErrorBody → Option A) → Option ErrorBody → Option A
body_field f none = none
body_field f (some body) = f body

abbrev body_details : Option ErrorBody → Value
body_details none = undefined
body_details (some body) = or_else body.errors body.error_details

unfoldable pub axios_service_error : AxiosLikeError → String → ServiceError
unfolding code_for_status
axios_service_error err default_message =
    let status = coalesce err.status 500 in
    record {
      code =
          coalesce
            (first (body_field (λ b. b.message_key) err.body)
              (body_field (λ b. b.error_code) err.body))
            (code_for_status status);
      status_code = status;
      message =
          coalesce
            (first (body_field (λ b. b.message) err.body)
              (first (body_field (λ b. b.error_message) err.body) err.message))
            default_message;
      details = if leb 500 status then undefined else body_details err.body;
      expose_message = true;
    }

-- The error that `handleAxiosError` throws; it never returns.
unfoldable pub handle_axios_error : Thrown → String → ServiceError
unfolding axios_service_error
handle_axios_error (service e) default_message = e
handle_axios_error (axios_like e) default_message = axios_service_error e default_message
handle_axios_error (http e) default_message =
    service_error ErrorCodes.internal 500 (coalesce e.message default_message)
handle_axios_error (error message) default_message = service_error ErrorCodes.internal 500 message
handle_axios_error other default_message = service_error ErrorCodes.internal 500 default_message
