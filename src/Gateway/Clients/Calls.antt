-- ===== src/Gateway/Clients/Calls.antt =====
-- The calls of the two clients of auth-service as values.
use backend_core_platform.Gateway.Clients.{Answer, Outcome}
use backend_core_platform.Gateway.Clients.AuthClient
use backend_core_platform.Gateway.Clients.RoleClient
use backend_core_platform.Base.{String, Bool, Option, Value}

pub data Call : Type 0 where
  gets_profile : Call
  logs_in : Value → Bool → Call
  verifies : String → String → Call
  confirms : String → String → Call
  resends_code : String → Call
  refreshes : String → String → Bool → Call
  logs_out_device : String → String → Bool → Call
  logs_out_all : Bool → Call
  forgets_password : String → Call
  verifies_reset : String → String → Call
  resets_password : String → String → String → Call
  creates_role : Value → Call
  finds_roles : Call
  finds_role : String → Call
  updates_role : String → Value → Call
  removes_role : String → Call
  gets_roles : String → Call
  gets_permissions : String → Call
  assigns_role : String → String → Call
  unassigns_role : String → String → Call

-- A call with the gateway's own token, the id of the request and the token of the user.
abbrev pub perform : String → String → Option String → Call → Answer → Outcome
perform signed id token gets_profile = AuthClient.get_profile_by_user_id signed id token
perform signed id token (logs_in dto browser) = AuthClient.login signed id dto browser
perform signed id token (verifies email code) = AuthClient.verify signed id email code
perform signed id token (confirms email code) = AuthClient.confirm signed id email code
perform signed id token (resends_code email) = AuthClient.resend_code signed id email
perform signed id token (refreshes refresh_token device browser) =
    AuthClient.refresh signed id refresh_token device browser
perform signed id token (logs_out_device device refresh_token browser) =
    AuthClient.logout_device signed id device refresh_token browser token
perform signed id token (logs_out_all browser) = AuthClient.logout_all signed id browser token
perform signed id token (forgets_password email) = AuthClient.forgot_password signed id email
perform signed id token (verifies_reset email code) =
    AuthClient.forgot_password_verify signed id email code
perform signed id token (resets_password email code password) =
    AuthClient.forgot_password_reset signed id email code password
perform signed id token (creates_role dto) = RoleClient.create signed id token dto
perform signed id token finds_roles = RoleClient.find_all signed id token
perform signed id token (finds_role role) = RoleClient.find_one signed id token role
perform signed id token (updates_role role dto) = RoleClient.update signed id token role dto
perform signed id token (removes_role role) = RoleClient.remove signed id token role
perform signed id token (gets_roles user) = RoleClient.get_roles_for_user signed id token user
perform signed id token (gets_permissions user) =
    RoleClient.get_permissions_for_user signed id token user
perform signed id token (assigns_role user role) = RoleClient.assign_role signed id token user role
perform signed id token (unassigns_role user role) =
    RoleClient.unassign_role signed id token user role
