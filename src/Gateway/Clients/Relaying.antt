-- ===== src/Gateway/Clients/Relaying.antt =====
-- A failed reply of auth-service on its way through the gateway to the browser.
use backend_core_platform.Common.Errors.{throws, service, ServiceError}
use backend_core_platform.Common.Errors.Axios.{handle_axios_error, axios_service_error}
use backend_core_platform.Common.Errors.Filter.{ErrorReply, catch}
use backend_core_platform.Common.Errors.Relay.{errors_value, errors_back}
use backend_core_platform.Gateway.Idempotency.Register.{response_error, error_body}
use backend_core_platform.Gateway.Clients.{answers, Outcome, CookieChange, Sent, checked}
use backend_core_platform.Gateway.Clients.AuthClient
use backend_core_platform.Gateway.Clients.RoleClient
use backend_core_platform.Gateway.Clients.Calls.{
  Call, perform, gets_profile, logs_in, verifies, confirms, resends_code, refreshes,
  logs_out_device, logs_out_all, forgets_password, verifies_reset, resets_password, creates_role,
  finds_roles, finds_role, updates_role, removes_role, gets_roles, gets_permissions, assigns_role,
  unassigns_role,
}
use backend_core_platform.Base.{
  ◌≤◌, String, ◌≡◌, refl, inl, inr, Option, none, List, [], arith, ltb, if◌then◌else◌, le→leb,
  Bool-cases, Value, str, obj, end, field,
}

-- The fields of a reply's JSON that the gateway reads.
abbrev pub reply_json : ErrorReply → Value
reply_json r = obj (
    field "messageKey" (str r.message_key)
      (field "message" (str r.message) (field "errors" (errors_value r.errors) end)))

module _ (to_text : Value → String) (join : List String → String) where
  -- The gateway's filter answers a failed call with the status, the key and the message of the reply,
  -- with its errors where the status is below 500 and else with none, and the cookies stay.
  pub record IsRelayed (path : Option String) (r : ErrorReply) (out : Outcome) : Type 0 where
    pub thrown : ServiceError
    pub same_cookies : out.cookies ≡ []
    pub throws_it : out.result ≡ throws (service thrown)
    pub same_status : (catch to_text join path (service thrown)).status_code ≡ r.status_code
    pub same_key : (catch to_text join path (service thrown)).message_key ≡ r.message_key
    pub same_message : (catch to_text join path (service thrown)).message ≡ r.message
    pub same_errors :
        (catch to_text join path (service thrown)).errors
        ≡ (if ltb r.status_code 500 then r.errors else none)

  module _ (same : (s : String) → to_text (str s) ≡ s) where
    checked-IsRelayed :
        (message : String) (change : List String → List CookieChange) (default : Value → Value)
        (sent : Sent) (path : Option String) (r : ErrorReply) (cookies : List String)
        → 400 ≤ r.status_code
        → IsRelayed path r
            (checked message change default sent (answers r.status_code (reply_json r) cookies))
    unfolding checked catch handle_axios_error axios_service_error response_error error_body
    checked-IsRelayed message change default sent path r cookies failed =
        rw (le→leb 400 r.status_code failed) (record {
          thrown = axios_service_error (response_error r.status_code (reply_json r)) message;
          same_cookies = refl;
          throws_it = refl;
          same_status = refl;
          same_key = refl;
          same_message = refl;
          same_errors = elim (Bool-cases (ltb r.status_code 500)) [
            | inl low ↦ ground (arith, errors_back to_text join same r.status_code r.errors, low)
            | inr high ↦ ground (arith, high)
          ];
        })

    -- Whatever a failed reply of auth-service is, every call of the client for accounts, but
    -- `register`, and of the client for roles ends in an error that the gateway answers with the
    -- same status, key and message, with the same errors where the status is below 500 and with
    -- none otherwise; no cookie is set or cleared. Assumed: the text of a text is that text.
    pub perform-IsRelayed :
        (call : Call) (signed id : String) (token path : Option String) (r : ErrorReply)
        (cookies : List String)
        → 400 ≤ r.status_code
        → IsRelayed path r
            (perform signed id token call (answers r.status_code (reply_json r) cookies))
    unfolding AuthClient.get_profile_by_user_id AuthClient.login AuthClient.verify
        AuthClient.confirm AuthClient.resend_code AuthClient.refresh AuthClient.logout_device
        AuthClient.logout_all AuthClient.forgot_password AuthClient.forgot_password_verify
        AuthClient.forgot_password_reset RoleClient.create RoleClient.find_all RoleClient.find_one
        RoleClient.update RoleClient.remove RoleClient.get_roles_for_user
        RoleClient.get_permissions_for_user RoleClient.assign_role RoleClient.unassign_role
    perform-IsRelayed gets_profile signed id token path r cookies failed =
        checked-IsRelayed _ _ _ _ path r cookies failed
    perform-IsRelayed (logs_in dto browser) signed id token path r cookies failed =
        checked-IsRelayed _ _ _ _ path r cookies failed
    perform-IsRelayed (verifies email code) signed id token path r cookies failed =
        checked-IsRelayed _ _ _ _ path r cookies failed
    perform-IsRelayed (confirms email code) signed id token path r cookies failed =
        checked-IsRelayed _ _ _ _ path r cookies failed
    perform-IsRelayed (resends_code email) signed id token path r cookies failed =
        checked-IsRelayed _ _ _ _ path r cookies failed
    perform-IsRelayed (refreshes refresh_token device browser) signed id token path r cookies
          failed =
        checked-IsRelayed _ _ _ _ path r cookies failed
    perform-IsRelayed (logs_out_device device refresh_token browser) signed id token path r cookies
          failed =
        checked-IsRelayed _ _ _ _ path r cookies failed
    perform-IsRelayed (logs_out_all browser) signed id token path r cookies failed =
        checked-IsRelayed _ _ _ _ path r cookies failed
    perform-IsRelayed (forgets_password email) signed id token path r cookies failed =
        checked-IsRelayed _ _ _ _ path r cookies failed
    perform-IsRelayed (verifies_reset email code) signed id token path r cookies failed =
        checked-IsRelayed _ _ _ _ path r cookies failed
    perform-IsRelayed (resets_password email code password) signed id token path r cookies failed =
        checked-IsRelayed _ _ _ _ path r cookies failed
    perform-IsRelayed (creates_role dto) signed id token path r cookies failed =
        checked-IsRelayed _ _ _ _ path r cookies failed
    perform-IsRelayed finds_roles signed id token path r cookies failed =
        checked-IsRelayed _ _ _ _ path r cookies failed
    perform-IsRelayed (finds_role role) signed id token path r cookies failed =
        checked-IsRelayed _ _ _ _ path r cookies failed
    perform-IsRelayed (updates_role role dto) signed id token path r cookies failed =
        checked-IsRelayed _ _ _ _ path r cookies failed
    perform-IsRelayed (removes_role role) signed id token path r cookies failed =
        checked-IsRelayed _ _ _ _ path r cookies failed
    perform-IsRelayed (gets_roles user) signed id token path r cookies failed =
        checked-IsRelayed _ _ _ _ path r cookies failed
    perform-IsRelayed (gets_permissions user) signed id token path r cookies failed =
        checked-IsRelayed _ _ _ _ path r cookies failed
    perform-IsRelayed (assigns_role user role) signed id token path r cookies failed =
        checked-IsRelayed _ _ _ _ path r cookies failed
    perform-IsRelayed (unassigns_role user role) signed id token path r cookies failed =
        checked-IsRelayed _ _ _ _ path r cookies failed
