-- ===== src/Common/Permission/Examples.antt =====
-- A concrete route, and a cache of one user at a time.
use backend_core_platform.Common.Errors.{ok}
use backend_core_platform.Common.Permission.{
  Hashes, Texts, Entry, Fetched, answers, refuses, Provided, cache_get, update_perm_version,
  get_permissions,
}
use backend_core_platform.Common.Permission.Caching.{get_permissions_once}
use backend_core_platform.Common.Permission.Guards.{
  number, RequestUser, Route, permission_can_activate,
}
use backend_core_platform.Common.Permission.Permitted.{Permitted, permission_can_activate-Permitted}
use backend_core_platform.Base.{
  String, ◌≡◌, refl, ◌↔◌, ◌⊎◌, true, false, Option, none, some, List, [], ◌∷◌, arith, eq_iff, ◌==◌,
  Eq_ℕ, Eq_String, if◌then◌else◌, concat,
}

abbrev Cells : Type 0
Cells = String → Option Entry

abbrev pub hashes : Hashes
hashes = record {
  Store = Cells;
  hgetall = λ k s. s k;
  hset = λ k e s. λ j. if k == j then some e else s j;
  del = λ k s. λ j. if k == j then none else s j;
  hgetall-hset = λ k j e s. refl;
  hgetall-del = λ k j s. refl;
}

-- Lists of permissions as texts that begin with a mark.
abbrev written : List String → String
written [] = "[]"
written (x ∷ xs) = concat "[" x

abbrev pub texts : Texts
texts = record {
  of_number = λ n. if n == 1 then "1" else "2";
  stringify = written;
  parse = λ s. some (if s == "[]" then [] else "users:read" ∷ []);
}

abbrev pub nothing_cached : Cells
nothing_cached k = none

abbrev reader : RequestUser
reader = record {
  kind = some "user";
  user_id = some "u1";
  perm_version = some (number 1);
  data_user_id = none;
  data_perm_version = none;
}

abbrev pub guarded : Route
guarded = record {
  is_public = false;
  required_permissions = "users:read" ∷ [];
  required_type = none;
}

abbrev pub reply : Fetched
reply = answers 200 "OK" (some ("users:read" ∷ []))

abbrev pub join : List String → String
join xs = ""

permission_can_activate-Permitted_example :
    ((permission_can_activate hashes texts
        (λ s. 0)
        join
        guarded
        (some reader)
        reply
        nothing_cached).1
      ≡ ok true)
    ↔ ((guarded.is_public ≡ true)
        ⊎ ((guarded.required_permissions ≡ [])
            ⊎ ((reader.kind ≡ some "internal")
                ⊎ Permitted hashes texts
                    (λ s. 0)
                    join
                    reply
                    nothing_cached
                    guarded.required_permissions
                    reader)))
permission_can_activate-Permitted_example =
    permission_can_activate-Permitted hashes texts (λ s. 0) join reply nothing_cached guarded reader

abbrev first_provided : Provided hashes texts
first_provided = get_permissions hashes texts "u1" 1 reply nothing_cached

get_permissions_once_example :
    (first_provided.called ≡ true)
    × (first_provided.result ≡ ok ("users:read" ∷ []))
    × (get_permissions hashes texts "u1" 1 refuses first_provided.store
        ≡ record { store = first_provided.store; called = false; result = ok ("users:read" ∷ []) })
    × ((get_permissions hashes texts "u1" 2 refuses first_provided.store).called ≡ true)
    × ((get_permissions hashes texts "u1" 2 refuses
          (update_perm_version hashes texts "u1" 2 first_provided.store)).called
        ≡ true)
unfolding cache_get
get_permissions_once_example =
    get_permissions_once hashes texts "u1" 1 2 "OK" "users:read" [] refuses nothing_cached
      (record { parse-stringify = refl; stringify_filled = refl })
      (record { parse-stringify = refl; stringify_filled = refl }) refl
      (ground (arith, eq_iff "1" "2"))
