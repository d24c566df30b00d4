-- ===== src/Gateway/Clients/RoleClient.antt =====
-- apps/gateway/src/modules/client/auth-service/role/role-client.service.ts
use backend_core_platform.Gateway.Clients.{
  Headers, Answer, Outcome, no_cookies, checked, internal_headers, request, as_given,
}
use backend_core_platform.Gateway.Clients.AuthClient.{auth_failed}
use backend_core_platform.Base.{String, Option, Value, concat, null, str, obj, end, field}

abbrev relayed : String → String → Value → Headers → Answer → Outcome
relayed method path body headers =
    checked auth_failed no_cookies as_given (request method path body headers)

abbrev user_and_role : String → String → Value
user_and_role user_id role_name =
    obj (field "userId" (str user_id) (field "roleName" (str role_name) end))

module _ (signed request_id : String) (token : Option String) where
  abbrev own : Headers
  own = internal_headers signed request_id token

  unfoldable pub create : Value → Answer → Outcome
  create dto = relayed "POST" "roles" dto own

  unfoldable pub find_all : Answer → Outcome
  find_all = relayed "GET" "roles" null own

  unfoldable pub find_one : String → Answer → Outcome
  find_one id = relayed "GET" (concat "roles/" id) null own

  unfoldable pub update : String → Value → Answer → Outcome
  update id dto = relayed "PATCH" (concat "roles/" id) dto own

  unfoldable pub remove : String → Answer → Outcome
  remove id = relayed "DELETE" (concat "roles/" id) null own

  unfoldable pub get_roles_for_user : String → Answer → Outcome
  get_roles_for_user user_id =
      relayed "GET" (concat "roles/users/" (concat user_id "/roles")) null own

  unfoldable pub get_permissions_for_user : String → Answer → Outcome
  get_permissions_for_user user_id =
      relayed "GET" (concat "roles/users/" (concat user_id "/permissions")) null own

  unfoldable pub assign_role : String → String → Answer → Outcome
  assign_role user_id role_name =
      relayed "POST" "roles/assign-role" (user_and_role user_id role_name) own

  unfoldable pub unassign_role : String → String → Answer → Outcome
  unassign_role user_id role_name =
      relayed "POST" "roles/unassign-role" (user_and_role user_id role_name) own
