-- ===== src/Gateway/Clients/AuthClient.antt =====
-- apps/gateway/src/modules/client/auth-service/auth/auth-client.service.ts, less `register`. A flag
-- says whether there is a response to the browser; `signed` is what `signInternalToken` gives.
use backend_core_platform.Gateway.Clients.{
  Headers, Answer, Outcome, forward_set_cookie, no_cookies, clear_session, checked,
  internal_headers, request, no_fields, as_given,
}
use backend_core_platform.Base.{
  String, Bool, Option, none, some, Value, or_else, concat, null, str, obj, end, field,
}

abbrev pub auth_failed : String
auth_failed = "Auth service request failed"

abbrev email_and_code : String → String → Value
email_and_code email code = obj (field "email" (str email) (field "code" (str code) end))

-- The headers with the `Cookie` of the session.
abbrev with_session : String → String → Headers → Headers
with_session refresh_token device_id headers = record headers {
  cookie = some (concat "refreshToken=" (concat refresh_token (concat "; deviceId=" device_id)));
}

abbrev logout_message : Value → Value
logout_message v = or_else v (str "logout success")

module _ (signed request_id : String) where
  abbrev own : Headers
  own = internal_headers signed request_id none

  unfoldable pub get_profile_by_user_id : Option String → Answer → Outcome
  get_profile_by_user_id token =
      checked auth_failed no_cookies as_given
        (request "GET" "auth/internal/me" null (internal_headers signed request_id token))

  unfoldable pub login : Value → Bool → Answer → Outcome
  login dto browser =
      checked auth_failed (forward_set_cookie browser) as_given
        (request "POST" "auth/internal/login" dto own)

  unfoldable pub verify : String → String → Answer → Outcome
  verify email code =
      checked auth_failed no_cookies as_given
        (request "POST" "auth/internal/register/verify" (email_and_code email code) own)

  unfoldable pub confirm : String → String → Answer → Outcome
  unfolding verify
  confirm email code = verify email code

  unfoldable pub resend_code : String → Answer → Outcome
  resend_code email =
      checked auth_failed no_cookies as_given
        (request "POST" "auth/internal/resend-code" (obj (field "email" (str email) end)) own)

  unfoldable pub refresh : String → String → Bool → Answer → Outcome
  refresh refresh_token device_id browser =
      checked auth_failed (forward_set_cookie browser) as_given (
        request "POST" "auth/internal/refresh" no_fields (with_session refresh_token device_id own))

  unfoldable pub logout_device : String → String → Bool → Option String → Answer → Outcome
  logout_device device_id refresh_token browser token =
      checked auth_failed (clear_session browser) logout_message (
        request "POST" "auth/internal/logout-device" no_fields
          (with_session refresh_token device_id (internal_headers signed request_id token)))

  unfoldable pub logout_all : Bool → Option String → Answer → Outcome
  logout_all browser token = checked auth_failed (clear_session browser) logout_message (
      request "POST" "auth/internal/logout-all" no_fields
        (internal_headers signed request_id token))

  unfoldable pub forgot_password : String → Answer → Outcome
  forgot_password email =
      checked auth_failed no_cookies as_given
        (request "POST" "auth/internal/forgot/password" (obj (field "email" (str email) end)) own)

  unfoldable pub forgot_password_verify : String → String → Answer → Outcome
  forgot_password_verify email code =
      checked auth_failed no_cookies as_given
        (request "POST" "auth/internal/forgot/password/verify" (email_and_code email code) own)

  unfoldable pub forgot_password_reset : String → String → String → Answer → Outcome
  forgot_password_reset email code password = checked auth_failed no_cookies as_given (
      request "POST" "auth/internal/forgot/password/reset"
        (obj (
          field "email" (str email)
            (field "code" (str code) (field "password" (str password) end))))
        own)
