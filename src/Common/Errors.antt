-- ===== src/Common/Errors.antt =====
-- packages/common/src/errors: error codes, ServiceError, and the errors that are thrown.
pub mod ErrorCodes
pub mod Filter
pub mod Axios
pub mod Relay
use backend_core_platform.Base.{
  ℕ, String, ◌≡◌, refl, ◌⊎◌, inl, inr, Bool, true, Option, Value, undefined,
}

pub record ServiceError : Type 0 where
  pub code : String
  pub status_code : ℕ
  pub message : String
  pub details : Value
  pub expose_message : Bool

-- The constructor with neither details nor `exposeMessage`, which is then true.
abbrev pub service_error : String → ℕ → String → ServiceError
service_error code status message = record {
  code = code;
  status_code = status;
  message = message;
  details = undefined;
  expose_message = true;
}

-- Nest's HttpException: its status, whether it is a BadRequestException, and the `code`, `message`
-- and `details` of its response.
pub record HttpException : Type 0 where
  pub status : ℕ
  pub is_bad_request : Bool
  pub code : Option String
  pub response_message : Value
  pub details : Value
  pub message : Option String

-- The body of a failed reply, by its declared type: the two shapes that services answer with.
pub record ErrorBody : Type 0 where
  pub message_key : Option String
  pub message : Option String
  pub errors : Value
  pub error_code : Option String
  pub error_message : Option String
  pub error_details : Value

-- An object with the key `response`, such as an axios error.
pub record AxiosLikeError : Type 0 where
  pub status : Option ℕ
  pub body : Option ErrorBody
  pub message : Option String

-- What can be caught.
pub data Thrown : Type 0 where
  service : ServiceError → Thrown
  http : HttpException → Thrown
  axios_like : AxiosLikeError → Thrown
  -- Any other `Error`, by its message, and any other value.
  error : String → Thrown
  other : Thrown

-- The outcome of code that may throw.
pub data Result {ℓ} (A : Type ℓ) : Type ℓ where
  ok : A → Result A
  throws : Thrown → Result A

-- `throw new ServiceError({ code, statusCode, message })`
abbrev pub fail {ℓ} : {A : Type ℓ} → String → ℕ → String → Result A
fail code status message = throws (service (service_error code status message))

pub Result-cases {ℓ} :
    {A : Type ℓ} (r : Result A) → ((a : A) × (r ≡ ok a)) ⊎ ((t : Thrown) × (r ≡ throws t))
Result-cases (ok a) = inl (a, refl)
Result-cases (throws t) = inr (t, refl)
