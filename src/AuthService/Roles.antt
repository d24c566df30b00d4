-- ===== src/AuthService/Roles.antt =====
-- apps/auth-service/src/modules/roles/roles.service.ts: roles, their permissions, and who has them.
-- The tables and the cache of permissions are parameters.
pub mod Changes
pub mod Membership
pub mod Granting
pub mod Assignment
pub mod Staleness
pub mod Examples
use backend_core_platform.Container.JsSet
use backend_core_platform.External.Table.{Table}
use backend_core_platform.External.Links.{Links}
use backend_core_platform.Common.Errors.ErrorCodes
use backend_core_platform.Common.Errors.{
  Result, ok, throws, fail, Thrown, service, http, axios_like, error, other, service_error,
}
use backend_core_platform.Common.Permission.{Hashes, Texts, update_perm_version}
use backend_core_platform.AuthService.Sessions.{User, user_id_of}
use backend_core_platform.AuthService.Accounts.{not_found_exception}
use backend_core_platform.Base.{
  String, Bool, not, Option, none, some, List, [], ◌∷◌, ◌==◌, Eq_ℕ, Eq_String, concat,
}

pub record Role : Type 0 where
  pub id : String
  pub name : String
  pub description : Option String

pub record Permission : Type 0 where
  pub id : String
  pub code : String
  pub description : Option String

abbrev pub role_id_of : Role → String
role_id_of r = r.id

abbrev pub permission_id_of : Permission → String
permission_id_of p = p.id

pub record CreateRoleDto : Type 0 where
  pub name : String
  pub description : Option String
  pub permission_ids : Option (List String)

-- `description` is none where it is undefined, and `some none` where it is null.
pub record UpdateRoleDto : Type 0 where
  pub name : Option String
  pub description : Option (Option String)
  pub permission_ids : Option (List String)

-- A role with its permissions.
pub record RoleView : Type 0 where
  pub role : Role
  pub permissions : List Permission

pub record Tables : Type 1 where
  pub users : Table User user_id_of
  pub roles : Table Role role_id_of
  pub permissions : Table Permission permission_id_of
  pub user_roles : Links
  pub role_permissions : Links
  pub hashes : Hashes
  pub texts : Texts
  -- The message of the error by which the database refuses a row.
  pub violation : String

pub record State (tables : Tables) : Type 0 where
  pub user_db : tables.users.Db
  pub role_db : tables.roles.Db
  pub permission_db : tables.permissions.Db
  pub user_roles : tables.user_roles.Db
  pub role_permissions : tables.role_permissions.Db
  pub cache : tables.hashes.Store

abbrev pub named : String → Role → Bool
named name r = r.name == name

module _ (tables : Tables) where
  abbrev pub Permissions : Type 0
  Permissions = tables.permissions.Db

  abbrev pub rows_of : List String → Permissions → List Permission
  rows_of [] db = []
  rows_of (id ∷ ids) db =
      let rest = rows_of ids db in
      elim (tables.permissions.find id db) [ none ↦ rest | some p ↦ p ∷ rest ]

  unfoldable pub find_one : String → State tables → Result RoleView
  find_one id st = elim (tables.roles.find id st.role_db) [
    | none ↦ not_found_exception (concat "Role with id '" (concat id "' not found"))
    | some role ↦ ok (record {
      role = role;
      permissions =
          rows_of (tables.role_permissions.targets id st.role_permissions) st.permission_db;
    })
  ]

  -- The codes of these permissions put into a set.
  abbrev pub add_codes : List Permission → List String → List String
  add_codes [] codes = codes
  add_codes (p ∷ ps) codes = add_codes ps (JsSet.add p.code codes)

  abbrev pub permissions_of : String → State tables → List Permission
  permissions_of role_id st =
      rows_of (tables.role_permissions.targets role_id st.role_permissions) st.permission_db

  abbrev pub collect : List String → State tables → List String → List String
  collect [] st codes = codes
  collect (role_id ∷ rest) st codes = collect rest st (add_codes (permissions_of role_id st) codes)

  unfoldable pub get_permission_codes_for_user : String → State tables → List String
  get_permission_codes_for_user user_id st =
      collect (tables.user_roles.targets user_id st.user_roles) st []

  abbrev names_of : List String → tables.roles.Db → List String
  names_of [] db = []
  names_of (id ∷ ids) db =
      let rest = names_of ids db in
      elim (tables.roles.find id db) [ none ↦ rest | some r ↦ r.name ∷ rest ]

  unfoldable pub get_roles_for_user : String → State tables → List String
  get_roles_for_user user_id st =
      names_of (tables.user_roles.targets user_id st.user_roles) st.role_db
