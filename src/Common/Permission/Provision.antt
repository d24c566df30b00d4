-- ===== src/Common/Permission/Provision.antt =====
-- Which permissions a user has: by the hash in Redis, or by what auth-service answers.

use backend_core_platform.Common.Errors.{ok}
use backend_core_platform.Common.Permission.{
  Hashes, Texts, Entry, Fetched, answers, responds, refuses, unanswered, unexpected, cache_key,
  cache_get, get_permissions,
}
use backend_core_platform.Base.{
  ℕ, String, ◌≡◌, refl, ap, ◌∙◌, ◌↔◌, ◌⊎◌, inl, inr, true, false, none, some, List, [], ◌∷◌, arith,
  eq_iff, eq_refl, ◌==◌, Eq_ℕ, Eq_String, is_empty, Bool-cases, Option-cases, is_nil, concat,
}

pub nil_of : {xs : List String} → is_nil xs ≡ true → xs ≡ []
nil_of {xs = []} h = refl
nil_of {xs = x ∷ xs} h = cc

module _ (hashes : Hashes) (texts : Texts) where
  -- The hash of the user has these permissions, of which there is one, for the version.
  pub record Kept (user_id : String) (version : ℕ) (s : hashes.Store) (permissions : List String)
      : Type 0 where
    pub entry : Entry
    pub held : hashes.hgetall (concat "permissions:user:" (concat user_id ":")) s ≡ some entry
    pub version_of_entry : entry.perm_version ≡ texts.of_number version
    pub filled : is_empty entry.permissions ≡ false
    pub parsed : texts.parse entry.permissions ≡ some permissions
    pub some_there : is_nil permissions ≡ false

  -- The permissions of a user at a version: those in Redis, or, where Redis has none, those that
  -- auth-service answers with.
  abbrev pub Provides : String → ℕ → Fetched → hashes.Store → List String → Type 0
  Provides user_id version fetched s permissions =
      Kept user_id version s permissions
      ⊎ (((other : List String) → ¬ Kept user_id version s other)
          × ((status_text : String) × (fetched ≡ answers 200 status_text (some permissions))))

  module _ (user_id : String) (version : ℕ) (s : hashes.Store) where
    Kept-cache_get :
        (ps : List String)
        → Kept user_id version s ps
        → cache_get hashes texts user_id version s ≡ ps
    unfolding cache_get
    Kept-cache_get ps kept = ground (
      arith,
      kept.held,
      kept.version_of_entry,
      kept.filled,
      kept.parsed,
      eq_refl (texts.of_number version),
    )

    cache_get-Kept :
        (ps : List String)
        → is_nil ps ≡ false
        → cache_get hashes texts user_id version s ≡ ps
        → Kept user_id version s ps
    unfolding cache_get
    cache_get-Kept ps there e = elim (Option-cases (hashes.hgetall (cache_key user_id) s)) [
      | inl missing ↦ absurd (ground (arith, missing, e, there))
      | inr (entry, held) ↦ elim (Option-cases (texts.parse entry.permissions)) [
        | inl broken ↦ absurd (ground (arith, held, broken, e, there))
        | inr (qs, parsed) ↦ elim (Bool-cases (entry.perm_version == texts.of_number version)) [
          | inr other ↦ absurd (ground (arith, held, other, e, there))
          | inl same ↦ elim (Bool-cases (is_empty entry.permissions)) [
            | inl blank ↦ absurd (ground (arith, held, same, blank, e, there))
            | inr filled ↦ record {
              entry = entry;
              held = held;
              version_of_entry = (eq_iff entry.perm_version (texts.of_number version)).0 same;
              filled = filled;
              parsed = ground (arith, held, same, filled, parsed, e);
              some_there = there;
            }
          ]
        ]
      ]
    ]

    fetched_only :
        (fetched : Fetched) (ps : List String)
        → cache_get hashes texts user_id version s ≡ []
        → ((get_permissions hashes texts user_id version fetched s).result ≡ ok ps)
          ↔ ((status_text : String) × (fetched ≡ answers 200 status_text (some ps)))
    unfolding get_permissions
    fetched_only (answers status status_text none) ps miss =
        (λ e. absurd (ground (arith, miss, e, Bool-cases (status == 200))), λ (t, e). cc)
    fetched_only (answers status status_text (some xs)) ps miss =
        elim (Bool-cases (status == 200)) [
          | inl fine ↦ (
            λ e. (status_text, ground (arith, miss, e, fine)),
            λ (t, e). ground (arith, miss, e, fine),
          )
          | inr wrong ↦ (
            λ e. absurd (ground (arith, miss, e, wrong)),
            λ (t, e). absurd (ground (arith, miss, e, wrong)),
          )
        ]
    fetched_only (responds status) ps miss = rw miss (λ e. cc, λ (t, e). cc)
    fetched_only refuses ps miss = rw miss (λ e. cc, λ (t, e). cc)
    fetched_only unanswered ps miss = rw miss (λ e. cc, λ (t, e). cc)
    fetched_only unexpected ps miss = rw miss (λ e. cc, λ (t, e). cc)

    -- The provider answers with exactly the permissions that Redis or auth-service provides.
    pub get_permissions-Provides :
        (fetched : Fetched) (ps : List String)
        → ((get_permissions hashes texts user_id version fetched s).result ≡ ok ps)
          ↔ Provides user_id version fetched s ps
    unfolding get_permissions
    get_permissions-Provides fetched ps =
        let cached = cache_get hashes texts user_id version s in
        elim (Bool-cases (is_nil cached)) [
          | inl miss ↦
              let fetches = fetched_only fetched ps (nil_of miss) in
              let nothing : (other : List String) → ¬ Kept user_id version s other =
                λ other kept. cc (Kept-cache_get other kept, kept.some_there, miss) in
              (
                λ e. inr (nothing, fetches.0 e),
                λ provided. elim provided [
                  | inl kept ↦ absurd (nothing ps kept)
                  | inr (_, answer) ↦ fetches.1 answer
                ],
              )
          | inr hit ↦
              let all : (get_permissions hashes texts user_id version fetched s).result
                  ≡ ok cached =
                rw hit refl in
              (
                λ e.
                    let same : cached ≡ ps = cc (all, e) in
                    inl (cache_get-Kept ps (cc (same, hit)) same),
                λ provided. elim provided [
                  | inl kept ↦ all ∙ ap ok (Kept-cache_get ps kept)
                  | inr (nothing, _) ↦ absurd (nothing cached (cache_get-Kept cached hit refl))
                ],
              )
        ]
