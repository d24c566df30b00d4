-- ===== src/AuthService/Roles/Examples.antt =====
-- Two roles and a user, on tables in memory.
use backend_core_platform.Container.JsSet
use backend_core_platform.Container.JsSet.{has, IsDistinct}
use backend_core_platform.External.Table.{Table}
use backend_core_platform.External.Table.Memory
use backend_core_platform.External.Table.Memory.{memory}
use backend_core_platform.External.Links.Memory.{links}
use backend_core_platform.Common.Errors.{Result, ok, throws, error}
use backend_core_platform.Common.Permission.{
  Hashes, Texts, Entry, refuses, cache_get, get_permissions,
}
use backend_core_platform.AuthService.Passwords.{Passwords}
use backend_core_platform.AuthService.Sessions.{User, user_id_of, RefreshToken, token_id}
use backend_core_platform.AuthService.Roles.{
  Role, role_id_of, Permission, permission_id_of, Tables, State, UpdateRoleDto,
  get_permission_codes_for_user, permissions_of,
}
use backend_core_platform.AuthService.Roles.Changes.{updated, update_role}
use backend_core_platform.AuthService.Roles.Membership.{raised, assign_role, unassign_role}
use backend_core_platform.AuthService.Roles.Granting.{
  Grants, role_grants, get_permission_codes_for_user_iff,
}
use backend_core_platform.AuthService.Roles.Assignment.{assign_role-unassign_role}
use backend_core_platform.AuthService.Roles.Staleness.{
  update_role-get_permissions, update_role_strips,
}
use backend_core_platform.Base.{
  String, ◌≡◌, refl, ◌↔◌, true, false, ◌||◌, Option, none, some, [], ◌∷◌, eq_refl, ◌==◌, Eq_ℕ,
  Eq_String, if◌then◌else◌,
}

abbrev Cells : Type 0
Cells = String → Option Entry

abbrev hashes : Hashes
hashes = record {
  Store = Cells;
  hgetall = λ k s. s k;
  hset = λ k e s. λ j. if k == j then some e else s j;
  del = λ k s. λ j. if k == j then none else s j;
  hgetall-hset = λ k j e s. refl;
  hgetall-del = λ k j s. refl;
}

abbrev texts : Texts
texts = record {
  of_number = λ n. if n == 1 then "1" else "2";
  stringify = λ xs. "[..]";
  parse = λ s. some ("read" ∷ []);
}

abbrev tables : Tables
tables = record {
  users = memory user_id_of;
  roles = memory role_id_of;
  permissions = memory permission_id_of;
  user_roles = links;
  role_permissions = links;
  hashes = hashes;
  texts = texts;
  violation = "Foreign key constraint violated";
}

abbrev mia : User
mia = record {
  id = "u1";
  email = "mia@x.org";
  password_hash = "";
  perm_version = 1;
  name = none;
  phone = none;
  is_active = true;
  created_at = 0;
  updated_at = 0;
}

abbrev reader : Role
reader = record { id = "r1"; name = "reader"; description = none }

abbrev writer : Role
writer = record { id = "r2"; name = "writer"; description = none }

abbrev can_read : Permission
can_read = record { id = "p1"; code = "read"; description = none }

abbrev can_write : Permission
can_write = record { id = "p2"; code = "write"; description = none }

-- Mia is a reader; readers read and writers write.
abbrev office : State tables
office = record {
  user_db = mia ∷ [];
  role_db = reader ∷ writer ∷ [];
  permission_db = can_read ∷ can_write ∷ [];
  user_roles = λ u. if u == "u1" then "r1" ∷ [] else [];
  role_permissions = λ r. if r == "r1" then "p1" ∷ [] else if r == "r2" then "p2" ∷ [] else [];
  cache = λ k. some (record { perm_version = "1"; permissions = "[..]" });
}

get_permission_codes_for_user_iff_example :
    IsDistinct (get_permission_codes_for_user tables "u1" office)
    × ((has "read" (get_permission_codes_for_user tables "u1" office) ≡ true)
        ↔ Grants tables "u1" "read" office)
get_permission_codes_for_user_iff_example =
    get_permission_codes_for_user_iff tables "u1" "read" office

abbrev promoted : State tables × Result (String × String)
promoted = assign_role tables 10 "u1" "writer" office

abbrev demoted : State tables × Result (String × String)
demoted = unassign_role tables 20 "u1" "writer" promoted.0

assign_role-unassign_role_example :
    (promoted.1 ≡ ok ("u1", "writer"))
    × (has "write" (get_permission_codes_for_user tables "u1" promoted.0) ≡ (
        has "write" (get_permission_codes_for_user tables "u1" office)
        || role_grants tables "write" office "r2"))
    × (demoted.1 ≡ ok ("u1", "writer"))
    × (has "write" (get_permission_codes_for_user tables "u1" demoted.0)
        ≡ has "write" (get_permission_codes_for_user tables "u1" office))
    × (tables.users.find "u1" demoted.0.user_db ≡ some (raised 3 20 mia))
unfolding Memory.find Memory.find_first JsSet.has
assign_role-unassign_role_example =
    assign_role-unassign_role tables 10 20 "u1" "writer" "write" mia writer office refl refl refl

abbrev passwords : Passwords
passwords = record {
  hash = λ salt p. p;
  verify = λ hash p. hash == p;
  verify-hash = λ salt p. eq_refl p;
}

abbrev tokens : Table RefreshToken token_id
tokens = memory token_id

-- Mia is a reader and a writer, who may both write.
abbrev twice : State tables
twice = record office {
  user_roles = λ u. if u == "u1" then "r1" ∷ "r2" ∷ [] else [];
  role_permissions = λ r. "p2" ∷ [];
}

abbrev reduced : State tables × Result (String × String)
reduced = unassign_role tables 10 "u1" "writer" twice

abbrev emptied : UpdateRoleDto
emptied = record { name = none; description = none; permission_ids = some [] }

update_role-get_permissions_example :
    ((update_role tables "r1" emptied office).1
      ≡ ok (record { role = updated emptied reader; permissions = [] }))
    × (get_permissions hashes texts "u1" 1 refuses (update_role tables "r1" emptied office).0.cache
        ≡ record {
          store = (update_role tables "r1" emptied office).0.cache;
          called = false;
          result = ok ("read" ∷ []);
        })
unfolding Memory.find cache_get
update_role-get_permissions_example =
    update_role-get_permissions tables "r1" emptied reader office refl refl "u1" "read" [] 1 refuses
      refl refl

abbrev misspelt : UpdateRoleDto
misspelt = record { name = none; description = none; permission_ids = some ("p9" ∷ "p1" ∷ []) }

update_role_strips_example :
    ((update_role tables "r1" misspelt office).1 ≡ throws (error "Foreign key constraint violated"))
    × (permissions_of tables "r1" (update_role tables "r1" misspelt office).0 ≡ [])
unfolding Memory.find
update_role_strips_example =
    update_role_strips tables "r1" misspelt reader office refl refl "p9" ("p1" ∷ []) refl refl
