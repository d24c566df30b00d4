-- ===== src/Gateway/Idempotency/Forever.antt =====
-- Exactly once: from the first success of a keyed request on, through any other requests.
use backend_core_platform.Container.JsMap
use backend_core_platform.Container.JsMap.{get-set}
use backend_core_platform.External.Table.{Table}
use backend_core_platform.Common.Errors.ErrorCodes
use backend_core_platform.Common.Errors.{Result, ok, fail, Thrown}
use backend_core_platform.Gateway.Idempotency.{
  IdempotencyRecord, IdempotencyRequest, Checked, State, record_id, has_key, is_null, is_undefined,
  new_record, completed_with, check_idempotency, check_database, get_from_cache, set_cache,
  cache_response, mark_completed, mark_failed,
}
use backend_core_platform.Gateway.Idempotency.Register.{
  Upstream, replies, Moment, register, after_check, execute, recover,
}
use backend_core_platform.Gateway.Idempotency.Replay.{
  IsDone, recached, get_from_cache-CacheAgrees, set_cache-CacheAgrees, register_replays,
}
use backend_core_platform.Gateway.Idempotency.Once.{register_other}
use backend_core_platform.Base.{
  ℕ, String, ◌≡◌, refl, sym, ap, subst, ◌≢◌, inl, inr, true, false, none, arith, eq_iff, eq_refl,
  leb, is_empty, Bool-cases, Option-cases, text_cases, Value, undefined, null,
}

module _ (table : Table IdempotencyRecord record_id) (hash : IdempotencyRequest → String)
    (describe : Thrown → String) where
  open table use {
    Db, find, find_id, find_first, find_first_found, find_first_missing, create, update,
    find-create, find-update,
  }

  -- Requests, one after another; a new record gets an id that is not in use.
  pub data Run : State table → State table → Type 0 where
    here : {st : State table} → Run st st
    next :
        {st st' : State table} (at : Moment) (req : IdempotencyRequest) (upstream : Upstream)
        → find at.new_id st.db ≡ none
        → Run (register table hash describe at req upstream st).0 st'
        → Run st st'

  module _ (key h : String) (body : Value) where
    check_database_clash :
        (now : ℕ) (new_id hash' : String) (st : State table)
        → h ≢ hash'
        → IsDone table key h body st
        → check_database table now new_id key hash' st ≡ (
          st,
          fail ErrorCodes.conflict 409 "Idempotency key conflict: different request with same key",
        )
    unfolding check_database
    check_database_clash now new_id hash' st ne done =
        elim (Option-cases (find_first (has_key key) st.db)) [
          | inl missing ↦ cc (
            find_first_missing (has_key key) done.row.id done.row st.db missing done.stored,
            (eq_iff done.row.key key).1 done.keyed,
          )
          | inr (r, found) ↦
              let (held, named) = find_first_found (has_key key) r st.db found in
              let (_, same, _) = done.rows r.id r held ((eq_iff r.key key).0 named) in
              ground (arith, found, same, ne, eq_iff r.request_hash hash')
        ]

  -- A request under the same key that is another request.
  module _ (h : String) (body : Value) (req : IdempotencyRequest) (given : is_empty req.key ≡ false)
      (defined : is_undefined body ≡ false) where
    clash-IsDone :
        (at : Moment) (upstream : Upstream) (st : State table)
        → h ≢ hash req
        → IsDone table req.key h body st
        → IsDone table req.key h body (register table hash describe at req upstream st).0
    unfolding register after_check check_idempotency recover mark_failed
    clash-IsDone at upstream st ne done =
        let cache = (get_from_cache at.start req.key st.cache).0 in
        let (agrees, answer) =
          get_from_cache-CacheAgrees table req.key h body at.start st.cache done.cached in
        let kept = recached table req.key h body done agrees in
        let clash =
          check_database_clash req.key h body at.start at.new_id (hash req)
            (record { cache = cache; db = st.db }) ne kept in
        elim (Bool-cases (is_null (get_from_cache at.start req.key st.cache).1)) [
          | inl null_hit ↦ rw given (rw null_hit (rw clash kept))
          | inr hit ↦ elim answer [
            | inl missed ↦ cc (hit, ap is_null missed)
            | inr found ↦ rw given (rw hit (rw found (rw defined kept)))
          ]
        ]

    same_key-IsDone :
        (at : Moment) (upstream : Upstream) (st : State table)
        → IsDone table req.key h body st
        → IsDone table req.key h body (register table hash describe at req upstream st).0
    same_key-IsDone at upstream st done = elim (text_cases (hash req) h) [
      | inr (_, clash) ↦ clash-IsDone at upstream st (λ e. clash (sym e)) done
      | inl (_, same) ↦
          let now_done = subst (λ k. IsDone table req.key k body st) (sym same) done in
          subst
            (λ k. IsDone table req.key k body (register table hash describe at req upstream st).0)
            same
            (register_replays table hash req body given describe at upstream st defined now_done).2
    ]

  module _ (key h : String) (body : Value) (given : is_empty key ≡ false)
      (defined : is_undefined body ≡ false) where
    -- Whatever request comes, a completed one stays completed.
    register_keeps :
        (at : Moment) (req : IdempotencyRequest) (upstream : Upstream) (st : State table)
        → find at.new_id st.db ≡ none
        → IsDone table key h body st
        → IsDone table key h body (register table hash describe at req upstream st).0
    register_keeps at req upstream st new done = elim (text_cases req.key key) [
      | inr (_, other) ↦
          register_other table key h body hash describe req other at upstream st new done
      | inl (_, same_key) ↦
          let held = subst (λ k. IsDone table k h body st) (sym same_key) done in
          let filled = subst (λ k. is_empty k ≡ false) (sym same_key) given in
          subst (λ k. IsDone table k h body (register table hash describe at req upstream st).0)
            same_key (same_key-IsDone h body req filled defined at upstream st held)
    ]

    pub Run-IsDone :
        {st st' : State table}
        → Run st st'
        → IsDone table key h body st
        → IsDone table key h body st'
    Run-IsDone here done = done
    Run-IsDone {st} (next at req upstream new rest) done =
        Run-IsDone rest (register_keeps at req upstream st new done)

  module _ (req : IdempotencyRequest) (given : is_empty req.key ≡ false) where
    -- A key that nothing has used yet.
    pub record IsFresh (st : State table) : Type 0 where
      pub unstored : find_first (has_key req.key) st.db ≡ none
      pub uncached : JsMap.get req.key st.cache ≡ none

    -- The check of the first request under a key: it is to be executed, under a new record.
    abbrev pub fresh_check : ℕ → String → State table → State table × Result Checked
    fresh_check now new_id st = (
      record { cache = st.cache; db = create (new_record now new_id req.key (hash req)) st.db },
      ok (record { record_id = new_id; should_execute = true; cached_response = undefined }),
    )

    check_database_fresh :
        (now : ℕ) (new_id : String) (st : State table)
        → IsFresh st
        → check_database table now new_id req.key (hash req) st ≡ fresh_check now new_id st
    unfolding check_database
    check_database_fresh now new_id st fresh = rw (fresh.unstored, check_database) refl

    get_from_cache_fresh :
        (now : ℕ) (st : State table)
        → IsFresh st
        → get_from_cache now req.key st.cache ≡ (st.cache, null)
    unfolding get_from_cache
    get_from_cache_fresh now st fresh = rw (fresh.uncached, get_from_cache) refl

    pub check_idempotency_fresh :
        (now : ℕ) (new_id : String) (st : State table)
        → IsFresh st
        → check_idempotency table hash now new_id req st ≡ fresh_check now new_id st
    unfolding check_idempotency
    check_idempotency_fresh now new_id st fresh =
        rw given (rw (get_from_cache_fresh now st fresh) (check_database_fresh now new_id st fresh))

    -- What the first success of a key leaves behind.
    abbrev finished : Moment → ℕ → Value → State table → State table
    finished at status body st = record {
      cache = set_cache at.finish req.key body st.cache;
      db =
          update at.new_id (completed_with status body)
            (create (new_record at.start at.new_id req.key (hash req)) st.db);
    }

    finished-IsDone :
        (at : Moment) (status : ℕ) (body : Value) (st : State table)
        → IsFresh st
        → find at.new_id st.db ≡ none
        → is_undefined body ≡ false
        → IsDone table req.key (hash req) body (finished at status body st)
    finished-IsDone at status body st fresh new defined =
        let r₀ = new_record at.start at.new_id req.key (hash req) in
        let change = λ (i : String).
          find-update i at.new_id (completed_with status body) (create r₀ st.db) (λ x. refl) in
        record {
          rows = λ i r e named. ground (
            arith,
            change i,
            find-create i r₀ st.db,
            eq_iff at.new_id i,
            new,
            defined,
            e,
            named,
            find_first_missing (has_key req.key) i r st.db fresh.unstored,
            eq_iff r.key req.key,
          );
          row = completed_with status body r₀;
          stored =
              ground (arith, change at.new_id, find-create at.new_id r₀ st.db, eq_refl at.new_id);
          keyed = refl;
          cached = set_cache-CacheAgrees table req.key (hash req) body at.finish st.cache;
        }

    -- The first request under a key, answered by auth-service with a status below 400.
    register_completes :
        (at : Moment) (status : ℕ) (body : Value) (st : State table)
        → IsFresh st
        → find at.new_id st.db ≡ none
        → is_empty at.new_id ≡ false
        → leb 400 status ≡ false
        → is_undefined body ≡ false
        → let (st', out) = register table hash describe at req (replies status body) st in
          (out.result ≡ ok body) × (out.called ≡ true) × IsDone table req.key (hash req) body st'
    unfolding register after_check execute cache_response mark_completed
    register_completes at status body st fresh new named success defined =
        rw (check_idempotency_fresh at.start at.new_id st fresh) (
          rw success
            (rw named (rw given (refl, refl, finished-IsDone at status body st fresh new defined))))

    -- Exactly once. The first request under a key, which auth-service answers with a status below
    -- 400 and a body, returns that body. Whatever requests follow one after another, under this
    -- key or another, the same request is answered with the same body ever after, and auth-service
    -- is not called again, whatever it would answer. Conditions: the key is not empty, neither the
    -- cache nor the database knows it yet, and every record that is made gets an id that no record
    -- has and that is not empty.
    pub register_once :
        (at later : Moment) (status : ℕ) (body : Value) (upstream : Upstream) (st st' : State table)
        → IsFresh st
        → find at.new_id st.db ≡ none
        → is_empty at.new_id ≡ false
        → leb 400 status ≡ false
        → is_undefined body ≡ false
        → Run (register table hash describe at req (replies status body) st).0 st'
        → let first = (register table hash describe at req (replies status body) st).1 in
          let again = (register table hash describe later req upstream st').1 in
          (first.result ≡ ok body)
          × (first.called ≡ true)
          × (again.result ≡ ok body)
          × (again.called ≡ false)
    register_once at later status body upstream st st' fresh new named success defined run =
        let (answer, called, done) =
          register_completes at status body st fresh new named success defined in
        let kept = Run-IsDone req.key (hash req) body given defined run done in
        let (same, idle, _) =
          register_replays table hash req body given describe later upstream st' defined kept in
        (answer, called, same, idle)
