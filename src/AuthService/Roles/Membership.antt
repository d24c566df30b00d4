-- ===== src/AuthService/Roles/Membership.antt =====
-- apps/auth-service/src/modules/roles/roles.service.ts: assignRole and unassignRole.

use backend_core_platform.Common.Errors.ErrorCodes
use backend_core_platform.Common.Errors.{
  Result, ok, throws, fail, Thrown, service, http, axios_like, error, other, service_error,
}
use backend_core_platform.Common.Permission.{update_perm_version}
use backend_core_platform.AuthService.Sessions.{User}
use backend_core_platform.AuthService.Accounts.{not_found_exception}
use backend_core_platform.AuthService.Roles.{Tables, State, named}
use backend_core_platform.Base.{
  ℕ, suc, String, not, none, some, ◌==◌, Eq_ℕ, Eq_String, if◌then◌else◌, or_text, concat,
}

abbrev pub raised : ℕ → ℕ → User → User
raised version now u = record u { perm_version = version; updated_at = now }

-- `{ message: error.message || message, statusCode: error.statusCode || 500 }`; only a ServiceError
-- has a `statusCode` and a `code`.
abbrev pub as_service_error : (String → String) → String → Thrown → Thrown
as_service_error code message (service e) = service (
    service_error (code e.code) (if e.status_code == 0 then 500 else e.status_code)
      (or_text (some e.message) message))
as_service_error code message (http e) =
    service (service_error ErrorCodes.internal 500 (or_text e.message message))
as_service_error code message (axios_like e) =
    service (service_error ErrorCodes.internal 500 (or_text e.message message))
as_service_error code message (error m) =
    service (service_error ErrorCodes.internal 500 (or_text (some m) message))
as_service_error code message other = service (service_error ErrorCodes.internal 500 message)

module _ (tables : Tables) where
  -- The transaction of an assignment, and the cached version after it.
  abbrev pub with_links : ℕ → String → User → tables.user_roles.Db → State tables → State tables
  with_links now user_id u db st = record st {
    user_db = tables.users.update user_id (raised (suc u.perm_version) now) st.user_db;
    user_roles = db;
    cache = update_perm_version tables.hashes tables.texts user_id (suc u.perm_version) st.cache;
  }

  abbrev assign_error : Thrown → Thrown
  assign_error = as_service_error (λ code. code) "Failed to assign role"

  abbrev unassign_error : Thrown → Thrown
  unassign_error = as_service_error (λ code. ErrorCodes.internal) "Failed to unassign role"

  abbrev caught :
      (Thrown → Thrown)
      → State tables × Result (String × String)
      → State tables × Result (String × String)
  caught f (st, ok a) = (st, ok a)
  caught f (st, throws t) = (st, throws (f t))

  unfoldable pub assign_role :
      ℕ → String → String → State tables → State tables × Result (String × String)
  assign_role now user_id role_name st =
      caught assign_error (elim (tables.users.find user_id st.user_db) [
        | none ↦ (st, not_found_exception "User not found")
        | some user ↦ elim (tables.roles.find_first (named role_name) st.role_db) [
          | none ↦ (st, not_found_exception (concat "Role '" (concat role_name "' not found")))
          | some role ↦
              if tables.user_roles.linked user_id role.id st.user_roles
              then (
                st,
                fail ErrorCodes.conflict 400
                    (concat "User already has role '" (concat role_name "'")),
              )
              else (
                with_links now user_id user (tables.user_roles.add user_id role.id st.user_roles)
                    st,
                ok (user_id, role_name),
              )
        ]
      ])

  unfoldable pub unassign_role :
      ℕ → String → String → State tables → State tables × Result (String × String)
  unassign_role now user_id role_name st =
      caught unassign_error (elim (tables.roles.find_first (named role_name) st.role_db) [
        | none ↦ (st, fail ErrorCodes.not_found 404 "Role not found")
        | some role ↦ elim (tables.users.find user_id st.user_db) [
          | none ↦ (st, fail ErrorCodes.not_found 404 "User not found")
          | some user ↦
              if not (tables.user_roles.linked user_id role.id st.user_roles)
              then (
                st,
                fail ErrorCodes.not_found 400
                    (concat "User does not have role '" (concat role_name "'")),
              )
              else (
                with_links now user_id user (tables.user_roles.remove user_id role.id st.user_roles)
                    st,
                ok (user_id, role_name),
              )
        ]
      ])
