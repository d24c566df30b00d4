-- ===== src/Gateway/Idempotency/Replay.antt =====
-- A request that has succeeded is answered again from its record.
use backend_core_platform.Container.JsMap
use backend_core_platform.Container.JsMap.{get-set, get-delete}
use backend_core_platform.External.Table.{Table}
use backend_core_platform.Common.Errors.{ok, Result, Thrown}
use backend_core_platform.Gateway.Idempotency.{
  IdempotencyRecord, completed, CachedResponse, Cache, State, record_id, has_key, check_database,
  get_from_cache, set_cache, IdempotencyRequest, check_idempotency, Checked, is_null, is_undefined,
}
use backend_core_platform.Gateway.Idempotency.Register.{Upstream, Moment, register}
use backend_core_platform.Base.{
  ℕ, ◌+◌, String, ◌≡◌, refl, ap, ◌⊎◌, inl, inr, false, some, arith, eq_iff, eq_refl, ltb, is_empty,
  Bool-cases, Option-cases, Value, null,
}

module _ (table : Table IdempotencyRecord record_id) where
  open table use {Db, find, find_first, find_first_found, find_first_missing}

  abbrev pub CacheAgrees : String → Value → Cache → Type 0
  CacheAgrees key body cache =
      (c : CachedResponse) → JsMap.get key cache ≡ some c → c.response ≡ body

  -- The request `h` under this key has completed with this body: so say the records with the key, of
  -- which there is one, and the cache says nothing else.
  pub record IsDone (key h : String) (body : Value) (st : State table) : Type 0 where
    pub rows :
        (i : String) (r : IdempotencyRecord)
        → find i st.db ≡ some r
        → r.key ≡ key
        → (r.status ≡ completed) × (r.request_hash ≡ h) × (r.response_body ≡ body)
    pub row : IdempotencyRecord
    pub stored : find row.id st.db ≡ some row
    pub keyed : row.key ≡ key
    pub cached : CacheAgrees key body st.cache

  module _ (key h : String) (body : Value) where
    pub recached :
        {st : State table} {cache : Cache}
        → IsDone key h body st
        → CacheAgrees key body cache
        → IsDone key h body (record { cache = cache; db = st.db })
    recached done agrees = record {
      rows = done.rows;
      row = done.row;
      stored = done.stored;
      keyed = done.keyed;
      cached = agrees;
    }

    pub set_cache-CacheAgrees :
        (now : ℕ) (cache : Cache) → CacheAgrees key body (set_cache now key body cache)
    unfolding set_cache
    set_cache-CacheAgrees now cache c e = ground (
      arith,
      eq_refl key,
      get-set key key (record { response = body; expires_at = now + 300000 }) cache,
    )

    pub get_from_cache-CacheAgrees :
        (now : ℕ) (cache : Cache)
        → CacheAgrees key body cache
        → CacheAgrees key body (get_from_cache now key cache).0
          × (((get_from_cache now key cache).1 ≡ null) ⊎ ((get_from_cache now key cache).1 ≡ body))
    unfolding get_from_cache
    get_from_cache-CacheAgrees now cache agrees = elim (Option-cases (JsMap.get key cache)) [
      | inl missing ↦ rw (missing, get_from_cache) (agrees, inl refl)
      | inr (c, held) ↦ elim (Bool-cases (ltb c.expires_at now)) [
        | inl expired ↦
            rw (held, get_from_cache)
              (rw expired
                ((λ d e. ground (arith, get-delete key key cache, eq_refl key)), inl refl))
        | inr kept ↦ rw (held, get_from_cache) (rw kept (agrees, inr (agrees c held)))
      ]
    ]

    pub check_database_done :
        (now : ℕ) (new_id : String) (st : State table)
        → IsDone key h body st
        → (id : String) × (check_database table now new_id key h st ≡ (
          record { cache = set_cache now key body st.cache; db = st.db },
          ok (record { record_id = id; should_execute = false; cached_response = body }),
        ))
    unfolding check_database
    check_database_done now new_id st done = elim (Option-cases (find_first (has_key key) st.db)) [
      | inl missing ↦ cc (
        find_first_missing (has_key key) done.row.id done.row st.db missing done.stored,
        (eq_iff done.row.key key).1 done.keyed,
      )
      | inr (r, found) ↦
          let (held, named) = find_first_found (has_key key) r st.db found in
          let (finished, same, answer) = done.rows r.id r held ((eq_iff r.key key).0 named) in
          (r.id, ground (arith, found, finished, same, answer, eq_iff r.request_hash h))
    ]

    -- What the check of a request that is done returns: nothing to execute, and the old body.
    abbrev Settled : State table × Result Checked → Type 0
    Settled (st, out) =
        (id : String) × (out
          ≡ ok (record { record_id = id; should_execute = false; cached_response = body }))
        × IsDone key h body st

  module _ (hash : IdempotencyRequest → String) (req : IdempotencyRequest) (body : Value)
      (given : is_empty req.key ≡ false) where
    check_idempotency_done :
        (now : ℕ) (new_id : String) (st : State table)
        → IsDone req.key (hash req) body st
        → Settled req.key (hash req) body (check_idempotency table hash now new_id req st)
    unfolding check_idempotency
    check_idempotency_done now new_id st done =
        let cache = (get_from_cache now req.key st.cache).0 in
        let (agrees, answer) =
          get_from_cache-CacheAgrees req.key (hash req) body now st.cache done.cached in
        let kept = recached req.key (hash req) body done agrees in
        let (id, looked_up) =
          check_database_done req.key (hash req) body now new_id
            (record { cache = cache; db = st.db }) kept in
        let read_again =
          recached req.key (hash req) body done
            (set_cache-CacheAgrees req.key (hash req) body now cache) in
        elim (Bool-cases (is_null (get_from_cache now req.key st.cache).1)) [
          | inl null_hit ↦ rw given (rw null_hit (rw looked_up (id, refl, read_again)))
          | inr hit ↦ elim answer [
            | inl missed ↦ cc (hit, ap is_null missed)
            | inr found ↦ rw given (rw hit (rw found ("", refl, kept)))
          ]
        ]

    -- A request that has completed under its key is answered with the body of that time, whatever
    -- auth-service would answer now and whenever it comes; auth-service is not called, and the
    -- request stays completed.
    pub register_replays :
        (describe : Thrown → String) (at : Moment) (upstream : Upstream) (st : State table)
        → is_undefined body ≡ false
        → IsDone req.key (hash req) body st
        → let (st', out) = register table hash describe at req upstream st in
          (out.result ≡ ok body) × (out.called ≡ false) × IsDone req.key (hash req) body st'
    unfolding register
    register_replays describe at upstream st defined done =
        let (id, settled, kept) = check_idempotency_done at.start at.new_id st done in
        rw settled (rw defined (refl, refl, kept))
