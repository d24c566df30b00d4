-- ===== src/AuthService/Roles/Granting.antt =====
-- The codes of a user are exactly those that the roles of the user grant.
use backend_core_platform.Container.JsSet
use backend_core_platform.Container.JsSet.{has, has-add, IsDistinct, add-IsDistinct}
use backend_core_platform.Container.SetTests.{any_entry, entry_any}
use backend_core_platform.AuthService.Roles.{
  Permission, Tables, State, rows_of, permissions_of, add_codes, collect,
  get_permission_codes_for_user,
}
use backend_core_platform.Base.{
  String, ◌≡◌, refl, ◌↔◌, inl, inr, Bool, true, ◌||◌, some, List, [], ◌∷◌, arith, eq_iff, eq_refl,
  ◌==◌, Eq_ℕ, Eq_String, Bool-cases, Option-cases, any,
}

module _ (tables : Tables) where
  open tables use {permissions}

  abbrev pub grants : String → Permission → Bool
  grants c p = p.code == c

  has-add_codes :
      (c : String) (ps : List Permission) (codes : List String)
      → has c (add_codes tables ps codes) ≡ (any (grants c) ps || has c codes)
  has-add_codes c [] codes = refl
  has-add_codes c (p ∷ ps) codes =
      ground (arith, has-add_codes c ps (JsSet.add p.code codes), has-add c p.code codes)

  add_codes-IsDistinct :
      (ps : List Permission) (codes : List String)
      → IsDistinct codes
      → IsDistinct (add_codes tables ps codes)
  add_codes-IsDistinct [] codes h = h
  add_codes-IsDistinct (p ∷ ps) codes h =
      add_codes-IsDistinct ps (JsSet.add p.code codes) (add-IsDistinct p.code codes h)

  abbrev pub role_grants : String → State tables → String → Bool
  role_grants c st role_id = any (grants c) (permissions_of tables role_id st)

  pub has-collect :
      (c : String) (ids : List String) (st : State tables) (codes : List String)
      → has c (collect tables ids st codes) ≡ (any (role_grants c st) ids || has c codes)
  has-collect c [] st codes = refl
  has-collect c (id ∷ ids) st codes = ground (
    arith,
    has-collect c ids st (add_codes tables (permissions_of tables id st) codes),
    has-add_codes c (permissions_of tables id st) codes,
  )

  collect-IsDistinct :
      (ids : List String) (st : State tables) (codes : List String)
      → IsDistinct codes
      → IsDistinct (collect tables ids st codes)
  collect-IsDistinct [] st codes h = h
  collect-IsDistinct (id ∷ ids) st codes h =
      collect-IsDistinct ids st (add_codes tables (permissions_of tables id st) codes)
        (add_codes-IsDistinct (permissions_of tables id st) codes h)

  row_entry :
      (c : String) (ids : List String) (db : permissions.Db)
      → any (grants c) (rows_of tables ids db) ≡ true
      → (id : String) × (p : Permission) × (has id ids ≡ true)
        × (permissions.find id db ≡ some p)
        × (p.code ≡ c)
  unfolding JsSet.has
  row_entry c [] db h = cc
  row_entry c (id ∷ ids) db h =
      let widened : any (grants c) (rows_of tables ids db) ≡ true
          → (i : String) × (p : Permission) × (has i (id ∷ ids) ≡ true)
            × (permissions.find i db ≡ some p)
            × (p.code ≡ c) =
        λ rest.
          let (y, p, there, found, same) = row_entry c ids db rest in
          (y, p, ground (arith, there), found, same) in
      elim (Option-cases (permissions.find id db)) [
        | inl missing ↦ widened (ground (arith, h, missing))
        | inr (p, found) ↦ elim (Bool-cases (p.code == c)) [
          | inl here ↦
              (id, p, ground (arith, eq_refl id), found, ground (arith, here, eq_iff p.code c))
          | inr apart ↦ widened (ground (arith, h, found, apart))
        ]
      ]

  entry_row :
      (c id : String) (p : Permission) (ids : List String) (db : permissions.Db)
      → has id ids ≡ true
      → permissions.find id db ≡ some p
      → p.code ≡ c
      → any (grants c) (rows_of tables ids db) ≡ true
  unfolding JsSet.has
  entry_row c id p [] db h found same = cc
  entry_row c id p (x ∷ xs) db h found same = elim (Option-cases (permissions.find x db)) [
    | inl missing ↦ ground (arith, missing, found, h, eq_iff x id, entry_row c id p xs db)
    | inr (q, there) ↦
        ground (arith, there, found, h, eq_iff x id, eq_iff q.code c, same, entry_row c id p xs db)
  ]

  -- A role of the user has a permission with the code.
  pub record Grants (user_id c : String) (st : State tables) : Type 0 where
    pub role_id : String
    pub permission_id : String
    pub permission : Permission
    pub has_role : tables.user_roles.linked user_id role_id st.user_roles ≡ true
    pub has_permission :
        tables.role_permissions.linked role_id permission_id st.role_permissions ≡ true
    pub stored : permissions.find permission_id st.permission_db ≡ some permission
    pub same_code : permission.code ≡ c

  abbrev codes : String → State tables → List String
  codes user_id st = get_permission_codes_for_user tables user_id st

  pub has-codes :
      (user_id c : String) (st : State tables)
      → has c (codes user_id st)
        ≡ any (role_grants c st) (tables.user_roles.targets user_id st.user_roles)
  unfolding get_permission_codes_for_user JsSet.has
  has-codes user_id c st =
      ground (arith, has-collect c (tables.user_roles.targets user_id st.user_roles) st [])

  granted :
      (user_id c : String) (st : State tables)
      → has c (codes user_id st) ≡ true
      → Grants user_id c st
  granted user_id c st h =
      let (role_id, mine, grants_it) =
        any_entry (role_grants c st) (tables.user_roles.targets user_id st.user_roles)
          (ground (arith, h, has-codes user_id c st)) in
      let (permission_id, p, linked, found, same) =
        row_entry c (tables.role_permissions.targets role_id st.role_permissions) st.permission_db
          grants_it in
      record {
        role_id = role_id;
        permission_id = permission_id;
        permission = p;
        has_role =
            ground (arith, mine, tables.user_roles.has-targets user_id role_id st.user_roles);
        has_permission = ground (
          arith,
          linked,
          tables.role_permissions.has-targets role_id permission_id st.role_permissions,
        );
        stored = found;
        same_code = same;
      }

  listed :
      (user_id c : String) (st : State tables)
      → Grants user_id c st
      → has c (codes user_id st) ≡ true
  listed user_id c st g =
      let grants_it =
        entry_row c g.permission_id g.permission
          (tables.role_permissions.targets g.role_id st.role_permissions) st.permission_db
          (ground (
            arith,
            g.has_permission,
            tables.role_permissions.has-targets g.role_id g.permission_id st.role_permissions,
          ))
          g.stored g.same_code in
      let hit =
        entry_any (role_grants c st) g.role_id (tables.user_roles.targets user_id st.user_roles)
          (ground
            (arith, g.has_role, tables.user_roles.has-targets user_id g.role_id st.user_roles))
          grants_it in
      ground (arith, hit, has-codes user_id c st)

  -- The codes of a user name each code at most once, and name a code exactly when some role of the
  -- user has a permission with that code.
  pub get_permission_codes_for_user_iff :
      (user_id c : String) (st : State tables)
      → IsDistinct (get_permission_codes_for_user tables user_id st)
        × ((has c (get_permission_codes_for_user tables user_id st) ≡ true) ↔ Grants user_id c st)
  unfolding get_permission_codes_for_user
  get_permission_codes_for_user_iff user_id c st = (
    collect-IsDistinct (tables.user_roles.targets user_id st.user_roles) st [] tt,
    (granted user_id c st, listed user_id c st),
  )
