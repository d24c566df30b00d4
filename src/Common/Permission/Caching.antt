-- ===== src/Common/Permission/Caching.antt =====
-- What the cache of permissions holds, and when auth-service is called.
use backend_core_platform.Common.Errors.{ok}
use backend_core_platform.Common.Permission.{
  Hashes, Texts, Fetched, answers, responds, refuses, unanswered, unexpected, cache_key, cache_set,
  cache_get, update_perm_version, get_permissions,
}
use backend_core_platform.Base.{
  ℕ, String, ◌≡◌, refl, ◌≢◌, inl, inr, true, false, none, some, List, [], ◌∷◌, arith, eq_iff,
  eq_refl, is_empty, Option-cases,
}

module _ (hashes : Hashes) (texts : Texts) where
  open hashes use {Store, hgetall, hset, del, hgetall-hset, hgetall-del}

  -- JSON gives back what was written, and writes no empty text.
  pub record IsJson (xs : List String) : Type 0 where
    pub parse-stringify : texts.parse (texts.stringify xs) ≡ some xs
    pub stringify_filled : is_empty (texts.stringify xs) ≡ false

  module _ (user_id : String) where
    cache_get-cache_set :
        (version : ℕ) (permissions : List String) (s : Store)
        → IsJson permissions
        → cache_get hashes texts user_id version
            (cache_set hashes texts user_id version permissions s)
          ≡ permissions
    unfolding cache_get cache_set
    cache_get-cache_set version permissions s json = ground (
      arith,
      hgetall-hset (cache_key user_id) (cache_key user_id)
          (record {
            perm_version = texts.of_number version;
            permissions = texts.stringify permissions;
          })
          s,
      eq_refl (cache_key user_id),
      eq_refl (texts.of_number version),
      json.parse-stringify,
      json.stringify_filled,
    )

    cache_get-cache_set_other :
        (version version' : ℕ) (permissions : List String) (s : Store)
        → texts.of_number version' ≢ texts.of_number version
        → cache_get hashes texts user_id version
            (cache_set hashes texts user_id version' permissions s)
          ≡ []
    unfolding cache_get cache_set
    cache_get-cache_set_other version version' permissions s apart = ground (
      arith,
      hgetall-hset (cache_key user_id) (cache_key user_id)
          (record {
            perm_version = texts.of_number version';
            permissions = texts.stringify permissions;
          })
          s,
      eq_refl (cache_key user_id),
      eq_iff (texts.of_number version') (texts.of_number version),
      apart,
    )

    -- Once the version is raised nothing is cached for another version.
    pub cache_get-update_perm_version :
        (version version' : ℕ) (s : Store)
        → texts.of_number version' ≢ texts.of_number version
        → cache_get hashes texts user_id version
            (update_perm_version hashes texts user_id version' s)
          ≡ []
    unfolding cache_get update_perm_version
    cache_get-update_perm_version version version' s apart =
        elim (Option-cases (hgetall (cache_key user_id) s)) [
          | inl missing ↦ ground (arith, missing)
          | inr (e, held) ↦
              ground (arith, held, cache_get-cache_set_other version version' [] s apart)
        ]

    pub get_permissions_hit :
        (version : ℕ) (p : String) (ps : List String) (fetched : Fetched) (s : Store)
        → cache_get hashes texts user_id version s ≡ p ∷ ps
        → get_permissions hashes texts user_id version fetched s
          ≡ record { store = s; called = false; result = ok (p ∷ ps) }
    unfolding get_permissions
    get_permissions_hit version p ps fetched s hit = rw hit refl

    pub get_permissions_miss :
        (version : ℕ) (fetched : Fetched) (s : Store)
        → cache_get hashes texts user_id version s ≡ []
        → (get_permissions hashes texts user_id version fetched s).called ≡ true
    unfolding get_permissions
    get_permissions_miss version (answers status status_text none) s miss = ground (arith, miss)
    get_permissions_miss version (answers status status_text (some xs)) s miss =
        ground (arith, miss)
    get_permissions_miss version (responds status) s miss = rw miss refl
    get_permissions_miss version refuses s miss = rw miss refl
    get_permissions_miss version unanswered s miss = rw miss refl
    get_permissions_miss version unexpected s miss = rw miss refl

    get_permissions_answered :
        (version : ℕ) (status_text : String) (permissions : List String) (s : Store)
        → cache_get hashes texts user_id version s ≡ []
        → get_permissions hashes texts user_id version
            (answers 200 status_text (some permissions))
            s
          ≡ record {
            store = cache_set hashes texts user_id version permissions s;
            called = true;
            result = ok permissions;
          }
    unfolding get_permissions
    get_permissions_answered version status_text permissions s miss = rw miss refl

    update_perm_version_stored :
        (version version' : ℕ) (permissions : List String) (s : Store)
        → let stored = cache_set hashes texts user_id version permissions s in
          update_perm_version hashes texts user_id version' stored
          ≡ cache_set hashes texts user_id version' [] stored
    unfolding update_perm_version cache_set
    update_perm_version_stored version version' permissions s = ground (
      arith,
      eq_refl (cache_key user_id),
      hgetall-hset (cache_key user_id) (cache_key user_id)
          (record {
            perm_version = texts.of_number version;
            permissions = texts.stringify permissions;
          })
          s,
    )

    -- Permissions that auth-service answers with on a miss, of which there is at least one, are
    -- kept for that version of the user: asked again with the version, the provider answers with
    -- the same ones and calls nobody; asked with another version, or once the version of the
    -- cached ones is raised to that, it calls auth-service. Assumed: JSON gives back these
    -- permissions and the empty list.
    pub get_permissions_once :
        (version version' : ℕ) (status_text : String) (p : String) (ps : List String)
        (again : Fetched) (s : Store)
        → IsJson []
        → IsJson (p ∷ ps)
        → cache_get hashes texts user_id version s ≡ []
        → texts.of_number version ≢ texts.of_number version'
        → let first =
            get_permissions hashes texts user_id version
              (answers 200 status_text (some (p ∷ ps)))
              s in
          let raised = update_perm_version hashes texts user_id version' first.store in
          (first.called ≡ true)
          × (first.result ≡ ok (p ∷ ps))
          × (get_permissions hashes texts user_id version again first.store
              ≡ record { store = first.store; called = false; result = ok (p ∷ ps) })
          × ((get_permissions hashes texts user_id version' again first.store).called ≡ true)
          × ((get_permissions hashes texts user_id version' again raised).called ≡ true)
    get_permissions_once version version' status_text p ps again s json_nil json miss apart =
        let stored = cache_set hashes texts user_id version (p ∷ ps) s in
        let raised = update_perm_version hashes texts user_id version' stored in
        rw (get_permissions_answered version status_text (p ∷ ps) s miss) (
          refl,
          refl,
          get_permissions_hit version p ps again stored
              (cache_get-cache_set version (p ∷ ps) s json),
          get_permissions_miss version' again stored
              (cache_get-cache_set_other version' version (p ∷ ps) s apart),
          get_permissions_miss version' again raised (
              rw (update_perm_version_stored version version' (p ∷ ps) s)
                (cache_get-cache_set version' [] stored json_nil)),
        )
