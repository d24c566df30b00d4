-- ===== src/AuthService/Roles/Changes.antt =====
-- apps/auth-service/src/modules/roles/roles.service.ts: create, update and remove.

use backend_core_platform.Common.Errors.ErrorCodes
use backend_core_platform.Common.Errors.{Result, ok, throws, fail, http, error}
use backend_core_platform.AuthService.Roles.{
  Role, CreateRoleDto, UpdateRoleDto, RoleView, Tables, State, named, Permissions, find_one,
}
use backend_core_platform.Base.{
  String, Bool, true, false, not, ◌&&◌, Option, none, some, List, [], ◌∷◌, ◌==◌, Eq_ℕ, Eq_String,
  if◌then◌else◌, is_some, coalesce, is_nil, keep, concat, undefined, str,
}

abbrev pub conflict_exception : {A : Type 0} → String → Result A
conflict_exception message = throws (
    http (record {
      status = 409;
      is_bad_request = false;
      code = none;
      response_message = str message;
      details = undefined;
      message = some message;
    }))

abbrev pub named_otherwise : String → String → Role → Bool
named_otherwise name id r = r.name == name && not (r.id == id)

abbrev pub role_exists : {A : Type 0} → String → Result A
role_exists name = conflict_exception (concat "Role with name '" (concat name "' already exists"))

-- `dto` over a role: what it leaves undefined stays.
abbrev pub updated : UpdateRoleDto → Role → Role
updated dto r = record r {
  name = coalesce dto.name r.name;
  description = coalesce dto.description r.description;
}

module _ (tables : Tables) where
  -- The upserts of `create`.
  abbrev pub upsert_all :
      String → List String → tables.role_permissions.Db → tables.role_permissions.Db
  upsert_all role_id [] db = db
  upsert_all role_id (p ∷ ps) db = upsert_all role_id ps (tables.role_permissions.add role_id p db)

  abbrev pub missing_ids : List String → Permissions tables → List String
  missing_ids ids db = keep (λ id. not (is_some (tables.permissions.find id db))) ids

  abbrev pub with_role : Role → State tables → State tables
  with_role role st = record st { role_db = tables.roles.create role st.role_db }

  -- `id` is the id of the new row. Where a permission is missing the role stays, without any.
  unfoldable pub create_role :
      (List String → String)
      → String
      → CreateRoleDto
      → State tables
      → State tables × Result RoleView
  unfolding find_one
  create_role join id dto st = elim (tables.roles.find_first (named dto.name) st.role_db) [
    | some existing ↦ (st, role_exists dto.name)
    | none ↦
        let role : Role = record { id = id; name = dto.name; description = dto.description } in
        let st' = with_role role st in
        let ids = coalesce dto.permission_ids [] in
        let missing = missing_ids ids st'.permission_db in
        let full : State tables = record st' {
          role_permissions = upsert_all id ids st'.role_permissions;
        } in
        if is_nil missing then (full, find_one tables id full) else (
          st',
          fail ErrorCodes.not_found 400 (concat "Some permissions do not exist: " (join missing)),
        )
  ]

  -- The inserts of `update`, one after the other, up to the first that the database refuses: a row
  -- that is there already, or a permission that is not.
  unfoldable pub insert_all :
      String
      → List String
      → Permissions tables
      → tables.role_permissions.Db
      → tables.role_permissions.Db × Result Bool
  insert_all role_id [] permissions db = (db, ok true)
  insert_all role_id (p ∷ ps) permissions db =
      let rest = insert_all role_id ps permissions (tables.role_permissions.add role_id p db) in
      if is_some (tables.permissions.find p permissions)
        && not (tables.role_permissions.linked role_id p db)
      then rest
      else (db, throws (error tables.violation))

  abbrev pub name_taken : Option String → String → State tables → Bool
  name_taken none id st = false
  name_taken (some name) id st =
      is_some (tables.roles.find_first (named_otherwise name id) st.role_db)

  -- What `update` returns after its writes.
  unfoldable pub found_after : String → State tables → Result Bool → State tables × Result RoleView
  unfolding find_one
  found_after id st (ok b) = (st, find_one tables id st)
  found_after id st (throws t) = (st, throws t)

  unfoldable pub replace_permissions :
      String → Option (List String) → State tables → State tables × Result RoleView
  unfolding insert_all found_after
  replace_permissions id none st = found_after id st (ok true)
  replace_permissions id (some ids) st =
      let (db, done) =
        insert_all id ids st.permission_db
          (tables.role_permissions.remove_source id st.role_permissions) in
      found_after id (record st { role_permissions = db }) done

  unfoldable pub update_role :
      String → UpdateRoleDto → State tables → State tables × Result RoleView
  unfolding find_one replace_permissions
  update_role id dto st = elim (find_one tables id st) [
    | throws t ↦ (st, throws t)
    | ok role ↦
        if name_taken dto.name id st
        then (st, role_exists (coalesce dto.name ""))
        else replace_permissions id dto.permission_ids
            (record st { role_db = tables.roles.update id (updated dto) st.role_db })
  ]

  -- The links of the role go with it.
  unfoldable pub remove_role : String → State tables → State tables × Result String
  unfolding find_one
  remove_role id st = elim (find_one tables id st) [
    | throws t ↦ (st, throws t)
    | ok role ↦ (
      record st {
        role_db = tables.roles.delete id st.role_db;
        user_roles = tables.user_roles.remove_target id st.user_roles;
        role_permissions = tables.role_permissions.remove_source id st.role_permissions;
      },
      ok id,
    )
  ]
