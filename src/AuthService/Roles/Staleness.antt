-- ===== src/AuthService/Roles/Staleness.antt =====
-- What a change of a role's permissions leaves behind.
use backend_core_platform.Container.JsSet.{eq-nil_iff}
use backend_core_platform.Common.Errors.{ok, throws, error}
use backend_core_platform.Common.Permission.{Fetched, cache_get, get_permissions}
use backend_core_platform.Common.Permission.Caching.{get_permissions_hit}
use backend_core_platform.AuthService.Roles.{
  Role, Tables, State, UpdateRoleDto, find_one, permissions_of,
}
use backend_core_platform.AuthService.Roles.Changes.{
  updated, name_taken, update_role, replace_permissions, insert_all, found_after,
}
use backend_core_platform.Base.{
  ℕ, String, ◌≡◌, refl, false, none, some, List, [], ◌∷◌, arith, eq_refl,
}

module _ (tables : Tables) where
  no_targets :
      (id : String) (db : tables.role_permissions.Db)
      → tables.role_permissions.targets id (tables.role_permissions.remove_source id db) ≡ []
  no_targets id db =
      let bare = tables.role_permissions.remove_source id db in
      (eq-nil_iff (tables.role_permissions.targets id bare)).1 (λ p. ground (
        arith,
        tables.role_permissions.has-targets id p bare,
        tables.role_permissions.linked-remove_source id p id db,
        eq_refl id,
      ))

  module _ (id : String) (dto : UpdateRoleDto) (role : Role) (st : State tables)
      (stored : tables.roles.find id st.role_db ≡ some role)
      (free : name_taken tables dto.name id st ≡ false) where
    abbrev renamed : State tables
    renamed = record st { role_db = tables.roles.update id (updated dto) st.role_db }

    abbrev stripped : State tables
    stripped = record renamed {
      role_permissions = tables.role_permissions.remove_source id st.role_permissions;
    }

    update_role_stored :
        update_role tables id dto st ≡ replace_permissions tables id dto.permission_ids renamed
    unfolding update_role find_one
    update_role_stored =
        let found : find_one tables id st
            ≡ ok (record { role = role; permissions = permissions_of tables id st }) =
          rw (stored, find_one) refl in
        rw (found, update_role) (rw free refl)

    still_found :
        find_one tables id stripped ≡ ok (record { role = updated dto role; permissions = [] })
    unfolding find_one
    still_found =
        let renamed_row : tables.roles.find id renamed.role_db ≡ some (updated dto role) = ground (
          arith,
          tables.roles.find-update id id (updated dto) st.role_db (λ x. refl),
          stored,
          eq_refl id,
        ) in
        rw (renamed_row, find_one) (rw (no_targets id st.role_permissions) refl)

    -- An existing role is updated to have no permission, under a free name: the answer is the role
    -- without permissions; yet a user whose permissions are cached is still given the cached ones,
    -- and auth-service is not called.
    pub update_role-get_permissions :
        (user_id p : String) (ps : List String) (version : ℕ) (fetched : Fetched)
        → dto.permission_ids ≡ some []
        → cache_get tables.hashes tables.texts user_id version st.cache ≡ p ∷ ps
        → let (st', out) = update_role tables id dto st in
          (out ≡ ok (record { role = updated dto role; permissions = [] }))
          × (get_permissions tables.hashes tables.texts user_id version fetched st'.cache
              ≡ record { store = st'.cache; called = false; result = ok (p ∷ ps) })
    unfolding replace_permissions insert_all found_after
    update_role-get_permissions user_id p ps version fetched none_left cached =
        rw update_role_stored (
          rw none_left (
            still_found,
            get_permissions_hit tables.hashes tables.texts user_id version p ps fetched st.cache
                cached,
          ))

    -- An existing role is updated, under a free name, with a list whose first permission does not
    -- exist: the database's error is thrown, and the role is left without any permission.
    pub update_role_strips :
        (p : String) (ps : List String)
        → dto.permission_ids ≡ some (p ∷ ps)
        → tables.permissions.find p st.permission_db ≡ none
        → let (st', out) = update_role tables id dto st in
          (out ≡ throws (error tables.violation)) × (permissions_of tables id st' ≡ [])
    unfolding replace_permissions insert_all found_after
    update_role_strips p ps asked missing =
        rw update_role_stored
          (rw asked (rw (missing, insert_all) (refl, rw (no_targets id st.role_permissions) refl)))
