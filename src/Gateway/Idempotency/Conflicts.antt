-- ===== src/Gateway/Idempotency/Conflicts.antt =====
-- Requests that share a key: the same key for another request, one that is still running, one that
-- has failed, and one whose answer is still in the cache.
use backend_core_platform.Container.JsMap
use backend_core_platform.External.Table.{Table}
use backend_core_platform.Common.Errors.ErrorCodes
use backend_core_platform.Common.Errors.{ok, fail, Thrown}
use backend_core_platform.Common.Errors.Axios.{handle_axios_error}
use backend_core_platform.Gateway.Idempotency.{
  IdempotencyRecord, IdempotencyRequest, processing, CachedResponse, State, record_id, has_key,
  is_null, is_undefined, check_idempotency, check_database, resume, get_from_cache, mark_failed,
}
use backend_core_platform.Gateway.Idempotency.Register.{
  Upstream, Moment, register, after_check, recover,
}
use backend_core_platform.Base.{
  ℕ, String, ◌≡◌, refl, ◌≢◌, ◌⊎◌, inl, inr, false, none, some, arith, eq_iff, ltb, ◌==◌, Eq_ℕ,
  Eq_String, is_empty, Bool-cases, null,
}

module _ (table : Table IdempotencyRecord record_id) (hash : IdempotencyRequest → String)
    (describe : Thrown → String) where
  open table use {
    Db, find, find_first, find_first_found, find_first_missing, create, update, find-create,
    find-update,
  }

  module _ (req : IdempotencyRequest) (given : is_empty req.key ≡ false) where
    get_from_cache_held :
        (now : ℕ) (c : CachedResponse) (st : State table)
        → JsMap.get req.key st.cache ≡ some c
        → ltb c.expires_at now ≡ false
        → get_from_cache now req.key st.cache ≡ (st.cache, c.response)
    unfolding get_from_cache
    get_from_cache_held now c st held fresh = rw (held, get_from_cache) (rw fresh refl)

    -- While the cache holds an answer, neither null nor undefined and not expired, under a key
    -- that is not empty, any request with that key, whatever its method, path and body, is
    -- answered with it; nothing is changed and auth-service is not called.
    pub register_cached :
        (at : Moment) (upstream : Upstream) (c : CachedResponse) (st : State table)
        → JsMap.get req.key st.cache ≡ some c
        → ltb c.expires_at at.start ≡ false
        → is_null c.response ≡ false
        → is_undefined c.response ≡ false
        → register table hash describe at req upstream st
          ≡ (st, record { result = ok c.response; called = false })
    unfolding register after_check check_idempotency
    register_cached at upstream c st held fresh answer defined =
        rw given (rw (get_from_cache_held at.start c st held fresh) (rw answer (rw defined refl)))

    pub get_from_cache_missing :
        (now : ℕ) (st : State table)
        → JsMap.get req.key st.cache ≡ none
        → get_from_cache now req.key st.cache ≡ (st.cache, null)
    unfolding get_from_cache
    get_from_cache_missing now st uncached = rw (uncached, get_from_cache) refl

    abbrev Clashes : ℕ → String → State table → Type 0
    Clashes now new_id st =
        (message : String) × (check_database table now new_id req.key (hash req) st
          ≡ (st, fail ErrorCodes.conflict 409 message))

    check_database_refused :
        (now : ℕ) (new_id : String) (r : IdempotencyRecord) (st : State table)
        → find_first (has_key req.key) st.db ≡ some r
        → (r.request_hash ≢ hash req) ⊎ (r.status ≡ processing)
        → Clashes now new_id st
    unfolding check_database resume
    check_database_refused now new_id r st found (inl changed) = (
      "Idempotency key conflict: different request with same key",
      ground (arith, found, changed, eq_iff r.request_hash (hash req)),
    )
    check_database_refused now new_id r st found (inr running) =
        elim (Bool-cases (r.request_hash == hash req)) [
          | inl same ↦ ("Request is still processing", ground (arith, found, same, running))
          | inr changed ↦ (
            "Idempotency key conflict: different request with same key",
            ground (arith, found, changed),
          )
        ]

    -- Under a key that is not empty and has no entry in the cache, another request than that of
    -- the key's record, and the same request while the record says that it is still processing,
    -- however old the record is, are refused with 409 CONFLICT: auth-service is not called and
    -- nothing is changed.
    pub register_conflicts :
        (at : Moment) (upstream : Upstream) (r : IdempotencyRecord) (st : State table)
        → JsMap.get req.key st.cache ≡ none
        → find_first (has_key req.key) st.db ≡ some r
        → (r.request_hash ≢ hash req) ⊎ (r.status ≡ processing)
        → (message : String) × (register table hash describe at req upstream st
            ≡ (st, record { result = fail ErrorCodes.conflict 409 message; called = false }))
    unfolding register after_check check_idempotency recover mark_failed handle_axios_error
    register_conflicts at upstream r st uncached found blocked =
        let (message, clash) = check_database_refused at.start at.new_id r st found blocked in
        (message, rw given (rw (get_from_cache_missing at.start st uncached) (rw clash refl)))
