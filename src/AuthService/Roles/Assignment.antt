-- ===== src/AuthService/Roles/Assignment.antt =====
-- What an assignment and its withdrawal do to the codes, the version and the tokens of a user.
use backend_core_platform.Container.JsSet.{has}
use backend_core_platform.External.Table.{Table}
use backend_core_platform.Common.Errors.{ok}
use backend_core_platform.AuthService.Passwords.{Passwords}
use backend_core_platform.AuthService.Sessions.{User}
use backend_core_platform.AuthService.Roles.{
  Role, Tables, State, named, get_permission_codes_for_user,
}
use backend_core_platform.AuthService.Roles.Membership.{
  raised, with_links, assign_role, unassign_role,
}
use backend_core_platform.AuthService.Roles.Granting.{role_grants, has-codes}
use backend_core_platform.Container.SetTests.{any_same, any_add}
use backend_core_platform.Base.{
  ℕ, suc, String, ◌≡◌, refl, true, false, ◌||◌, some, List, arith, eq_iff, eq_refl, Eq_ℕ, Eq_String,
}

module _ (tables : Tables) where
  abbrev codes : String → State tables → List String
  codes user_id st = get_permission_codes_for_user tables user_id st

  module _ (now : ℕ) (user_id role_name : String) (u : User) (role : Role) (st : State tables)
      (known : tables.users.find user_id st.user_db ≡ some u)
      (exists : tables.roles.find_first (named role_name) st.role_db ≡ some role) where
    abbrev assigned : State tables
    assigned =
        with_links tables now user_id u (tables.user_roles.add user_id role.id st.user_roles) st

    abbrev withdrawn : State tables
    withdrawn =
        with_links tables now user_id u (tables.user_roles.remove user_id role.id st.user_roles) st

    assign_role_new :
        tables.user_roles.linked user_id role.id st.user_roles ≡ false
        → assign_role tables now user_id role_name st ≡ (assigned, ok (user_id, role_name))
    unfolding assign_role
    assign_role_new apart = rw (known, assign_role) (rw (exists, assign_role) (rw apart refl))

    unassign_role_held :
        tables.user_roles.linked user_id role.id st.user_roles ≡ true
        → unassign_role tables now user_id role_name st ≡ (withdrawn, ok (user_id, role_name))
    unfolding unassign_role
    unassign_role_held held = rw (exists, unassign_role) (rw (known, unassign_role) (rw held refl))

    codes-assigned :
        (c : String)
        → has c (codes user_id assigned)
          ≡ (has c (codes user_id st) || role_grants tables c st role.id)
    codes-assigned c =
        let before = tables.user_roles.targets user_id st.user_roles in
        let after = tables.user_roles.targets user_id assigned.user_roles in
        rw (has-codes tables user_id c assigned, has-codes tables user_id c st)
          (any_add (role_grants tables c st) role.id before after (λ x. ground (
            arith,
            tables.user_roles.has-targets user_id x assigned.user_roles,
            tables.user_roles.has-targets user_id x st.user_roles,
            tables.user_roles.linked-add user_id x user_id role.id st.user_roles,
            eq_refl user_id,
          )))

  raised_find :
      (now : ℕ) (user_id : String) (u : User) (st : State tables) (links : tables.user_roles.Db)
      → tables.users.find user_id st.user_db ≡ some u
      → tables.users.find user_id (with_links tables now user_id u links st).user_db
        ≡ some (raised (suc u.perm_version) now u)
  raised_find now user_id u st links known = ground (
    arith,
    tables.users.find-update user_id user_id (raised (suc u.perm_version) now) st.user_db
        (λ x. refl),
    known,
    eq_refl user_id,
  )

  -- An existing user without an existing role is assigned the role and then loses it again: both
  -- succeed; in between the user has exactly the codes of before and those of the role; in the end
  -- exactly the codes of before; and the version of the user is two higher.
  pub assign_role-unassign_role :
      (now later : ℕ) (user_id role_name c : String) (u : User) (role : Role) (st : State tables)
      → tables.users.find user_id st.user_db ≡ some u
      → tables.roles.find_first (named role_name) st.role_db ≡ some role
      → tables.user_roles.linked user_id role.id st.user_roles ≡ false
      → let (st₁, given) = assign_role tables now user_id role_name st in
        let (st₂, taken) = unassign_role tables later user_id role_name st₁ in
        (given ≡ ok (user_id, role_name))
        × (has c (codes user_id st₁)
            ≡ (has c (codes user_id st) || role_grants tables c st role.id))
        × (taken ≡ ok (user_id, role_name))
        × (has c (codes user_id st₂) ≡ has c (codes user_id st))
        × (tables.users.find user_id st₂.user_db ≡ some (raised (suc (suc u.perm_version)) later u))
  assign_role-unassign_role now later user_id role_name c u role st known exists apart =
      let st₁ = assigned now user_id role_name u role st known exists in
      let u₁ = raised (suc u.perm_version) now u in
      let known₁ =
        raised_find now user_id u st (tables.user_roles.add user_id role.id st.user_roles) known in
      let linked : tables.user_roles.linked user_id role.id st₁.user_roles ≡ true = ground (
        arith,
        tables.user_roles.linked-add user_id role.id user_id role.id st.user_roles,
        eq_refl user_id,
        eq_refl role.id,
      ) in
      let st₂ = withdrawn later user_id role_name u₁ role st₁ known₁ exists in
      let back : has c (codes user_id st₂) ≡ has c (codes user_id st) =
        rw (has-codes tables user_id c st₂, has-codes tables user_id c st)
          (any_same (role_grants tables c st) (tables.user_roles.targets user_id st.user_roles)
            (tables.user_roles.targets user_id st₂.user_roles)
            (λ x. ground (
              arith,
              tables.user_roles.has-targets user_id x st₂.user_roles,
              tables.user_roles.has-targets user_id x st.user_roles,
              tables.user_roles.linked-remove user_id x user_id role.id st₁.user_roles,
              tables.user_roles.linked-add user_id x user_id role.id st.user_roles,
              eq_refl user_id,
              eq_iff role.id x,
              apart,
            ))) in
      rw (assign_role_new now user_id role_name u role st known exists apart) (
        rw (unassign_role_held later user_id role_name u₁ role st₁ known₁ exists linked) (
          refl,
          codes-assigned now user_id role_name u role st known exists c,
          refl,
          back,
          raised_find later user_id u₁ st₁ (tables.user_roles.remove user_id role.id st₁.user_roles)
              known₁,
        ))
