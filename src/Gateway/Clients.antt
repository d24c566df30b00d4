-- ===== src/Gateway/Clients.antt =====
-- What the gateway's clients of other services share: a request over axios with `validateStatus`
-- always true, the check of the reply's status, and `handleAxiosError` in the `catch` block.
pub mod AuthClient
pub mod RoleClient
pub mod NotificationClient
pub mod Calls
pub mod Relaying
pub mod Examples
use backend_core_platform.Common.Errors.{Result, ok, throws, Thrown, service, axios_like}
use backend_core_platform.Common.Errors.Axios.{handle_axios_error}
use backend_core_platform.Gateway.Idempotency.Register.{response_error}
use backend_core_platform.Base.{
  ℕ, String, Bool, true, false, Option, none, some, List, [], ◌∷◌, map, leb, if◌then◌else◌, or_text,
  Value, concat, obj, end,
}

pub record Headers : Type 0 where
  pub request_id : String
  pub authorization : Option String
  pub cookie : Option String

pub record Sent : Type 0 where
  pub method : String
  pub path : String
  -- `null` where there is no body.
  pub body : Value
  pub headers : Headers
  -- The query parameters that are given.
  pub params : List (String × Option String)

-- What the service answers with: the status, the data and the `set-cookie` headers; or what axios
-- throws.
pub data Answer : Type 0 where
  answers : ℕ → Value → List String → Answer
  breaks : Thrown → Answer

-- What is done to the cookies of the response to the browser.
pub data CookieChange : Type 0 where
  appends : String → CookieChange
  clears : String → CookieChange

pub record Outcome : Type 0 where
  pub sent : Sent
  pub cookies : List CookieChange
  pub result : Result Value

-- `forwardSetCookie`, where there is a response to the browser.
unfoldable pub forward_set_cookie : Bool → List String → List CookieChange
forward_set_cookie true cookies = map appends cookies
forward_set_cookie false cookies = []

abbrev pub no_cookies : List String → List CookieChange
no_cookies cookies = []

-- `clearCookie` for both, where there is a response to the browser.
abbrev pub clear_session : Bool → List String → List CookieChange
clear_session true cookies = clears "refreshToken" ∷ clears "deviceId" ∷ []
clear_session false cookies = []

-- The `catch` block.
abbrev caught : String → Thrown → Result Value
caught message t = throws (service (handle_axios_error t message))

-- A call that checks the status: on success the cookies change and the data may get a default.
unfoldable pub checked :
    String → (List String → List CookieChange) → (Value → Value) → Sent → Answer → Outcome
checked message change default sent (breaks t) = record {
  sent = sent;
  cookies = [];
  result = caught message t;
}
checked message change default sent (answers status data_ cookies) =
    if leb 400 status
    then record {
      sent = sent;
      cookies = [];
      result =
          caught message
            (service (handle_axios_error (axios_like (response_error status data_)) message));
    }
    else record { sent = sent; cookies = change cookies; result = ok (default data_) }

-- A call that does not check the status.
unfoldable pub unchecked : String → Sent → Answer → Outcome
unchecked message sent (breaks t) = record { sent = sent; cookies = []; result = caught message t }
unchecked message sent (answers status data_ cookies) = record {
  sent = sent;
  cookies = [];
  result = ok data_;
}

-- `if (token)`: a token that is given, else one that the gateway signs for itself.
unfoldable pub internal_headers : String → String → Option String → Headers
internal_headers signed request_id token = record {
  request_id = request_id;
  authorization = some (or_text token (concat "Bearer " signed));
  cookie = none;
}

abbrev pub request : String → String → Value → Headers → Sent
request method path body headers = record {
  method = method;
  path = path;
  body = body;
  headers = headers;
  params = [];
}

abbrev pub no_fields : Value
no_fields = obj end

abbrev pub as_given : Value → Value
as_given v = v
