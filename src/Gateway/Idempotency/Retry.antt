-- ===== src/Gateway/Idempotency/Retry.antt =====
-- A request that has failed: what its record says, and that it may be sent again.
use backend_core_platform.Container.JsMap
use backend_core_platform.External.Table.{Table, KeepsId}
use backend_core_platform.Common.Errors.{ServiceError, ok, throws, Thrown, service, axios_like}
use backend_core_platform.Common.Errors.Axios.{handle_axios_error}
use backend_core_platform.Gateway.Idempotency.{
  IdempotencyRecord, IdempotencyRequest, completed, failed, State, record_id, has_key, is_undefined,
  retried, new_record, completed_with, failed_with, check_idempotency, check_database, resume,
  set_cache, cache_response, mark_completed, mark_failed,
}
use backend_core_platform.Gateway.Idempotency.Register.{
  Upstream, replies, breaks, Moment, register, after_check, execute, recover, crash_data,
  response_error,
}
use backend_core_platform.Gateway.Idempotency.Replay.{IsDone, set_cache-CacheAgrees}
use backend_core_platform.Gateway.Idempotency.Forever.{IsFresh, check_idempotency_fresh}
use backend_core_platform.Gateway.Idempotency.Conflicts.{get_from_cache_missing}
use backend_core_platform.Base.{
  ℕ, String, ◌≡◌, refl, sym, subst, ◌∙◌, inl, inr, true, false, none, some, arith, eq_iff, eq_refl,
  leb, is_empty, Option-cases, Value, undefined,
}

-- Auth-service answers with a status of 400 or more, or the call throws.
abbrev pub IsFailing : Upstream → Type 0
IsFailing (replies status body) = leb 400 status ≡ true
IsFailing (breaks t) = Unit

module _ (table : Table IdempotencyRecord record_id) (hash : IdempotencyRequest → String)
    (describe : Thrown → String) where
  open table use {
    Db, find, find_id, find_first, find_first_found, find_first_missing, create, update,
    find-create, find-update,
  }

  -- What `register` throws where auth-service has failed.
  abbrev pub thrown_for : Upstream → ServiceError
  thrown_for (replies status body) =
      handle_axios_error (axios_like (response_error status body)) "Auth service request failed"
  thrown_for (breaks t) = handle_axios_error t "Register request failed"

  module _ (req : IdempotencyRequest) (given : is_empty req.key ≡ false) where
    -- The only record of the key.
    record IsOnly (r : IdempotencyRecord) (db : table.Db) : Type 0 where
      stored : find r.id db ≡ some r
      keyed : r.key ≡ req.key
      only : (i : String) (s : IdempotencyRecord) → find i db ≡ some s → s.key ≡ req.key → i ≡ r.id

    IsOnly-create :
        (now : ℕ) (new_id : String) (st : State table)
        → IsFresh table hash describe req given st
        → find new_id st.db ≡ none
        → IsOnly
            (new_record now new_id req.key (hash req))
            (create (new_record now new_id req.key (hash req)) st.db)
    IsOnly-create now new_id st fresh new =
        let r₀ = new_record now new_id req.key (hash req) in
        record {
          stored = ground (arith, find-create new_id r₀ st.db, eq_refl new_id);
          keyed = refl;
          only = λ i s e named. ground (
            arith,
            find-create i r₀ st.db,
            eq_iff new_id i,
            e,
            named,
            eq_iff s.key req.key,
            find_first_missing (has_key req.key) i s st.db fresh.unstored,
          );
        }

    IsOnly-update :
        (f : IdempotencyRecord → IdempotencyRecord) (r : IdempotencyRecord) (db : Db)
        → KeepsId record_id f
        → (f r).key ≡ r.key
        → IsOnly r db
        → IsOnly (f r) (update r.id f db)
    IsOnly-update f r db keeps key_kept one = record {
      stored =
          subst (λ i. find i (update r.id f db) ≡ some (f r)) (sym (keeps r))
            (ground (arith, find-update r.id r.id f db keeps, eq_refl r.id, one.stored));
      keyed = key_kept ∙ one.keyed;
      only = λ i s e named.
          ground
            (arith, find-update i r.id f db keeps, eq_iff r.id i, keeps r, one.only i s, e, named);
    }

    IsOnly-find_first :
        (r : IdempotencyRecord) (db : Db) → IsOnly r db → find_first (has_key req.key) db ≡ some r
    IsOnly-find_first r db one = elim (Option-cases (find_first (has_key req.key) db)) [
      | inl missing ↦ cc (
        find_first_missing (has_key req.key) r.id r db missing one.stored,
        (eq_iff r.key req.key).1 one.keyed,
      )
      | inr (s, found) ↦
          let (held, named) = find_first_found (has_key req.key) s db found in
          cc (one.only s.id s held ((eq_iff s.key req.key).0 named), one.stored)
    ]

    -- The one record of the key says that the request has failed, with status 500.
    pub record IsFailed (st : State table) : Type 0 where
      pub row : IdempotencyRecord
      one : IsOnly row st.db
      pub named : is_empty row.id ≡ false
      pub status : row.status ≡ failed
      pub response_status : row.response_status ≡ some 500
      pub same : row.request_hash ≡ hash req
      pub uncached : JsMap.get req.key st.cache ≡ none

    update-IsFailed :
        (error_data : Value) (r : IdempotencyRecord) (st : State table)
        → IsOnly r st.db
        → is_empty r.id ≡ false
        → r.request_hash ≡ hash req
        → JsMap.get req.key st.cache ≡ none
        → IsFailed
            (record { cache = st.cache; db = update r.id (failed_with 500 error_data) st.db })
    update-IsFailed error_data r st one named same uncached = record {
      row = failed_with 500 error_data r;
      one = IsOnly-update (failed_with 500 error_data) r st.db (λ x. refl) refl one;
      named = named;
      status = refl;
      response_status = refl;
      same = same;
      uncached = uncached;
    }

    -- The first request under a key that is not empty, where auth-service answers with a status of
    -- 400 or more or the call throws: auth-service is called, `register` throws the error made of
    -- that answer, and the one record of the key says that the request has failed, with status 500
    -- whatever auth-service answered. The id of the record is new and not empty.
    pub register_fails :
        (at : Moment) (upstream : Upstream) (st : State table)
        → IsFresh table hash describe req given st
        → find at.new_id st.db ≡ none
        → is_empty at.new_id ≡ false
        → IsFailing upstream
        → let (st', out) = register table hash describe at req upstream st in
          (out.result ≡ throws (service (thrown_for upstream))) × (out.called ≡ true) × IsFailed st'
    unfolding register after_check execute recover mark_failed handle_axios_error
    register_fails at (replies status body) st fresh new named fails =
        let r₀ = new_record at.start at.new_id req.key (hash req) in
        let one =
          IsOnly-update (failed_with status body) r₀ (create r₀ st.db) (λ x. refl) refl
            (IsOnly-create at.start at.new_id st fresh new) in
        rw (check_idempotency_fresh table hash describe req given at.start at.new_id st fresh) (
          rw fails (
            rw named (
              refl,
              refl,
              update-IsFailed
                  (crash_data table hash describe (service (thrown_for (replies status body))))
                  (failed_with status body r₀)
                  (record {
                    cache = st.cache;
                    db = update at.new_id (failed_with status body) (create r₀ st.db);
                  })
                  one named refl fresh.uncached,
            )))
    register_fails at (breaks t) st fresh new named fails =
        let r₀ = new_record at.start at.new_id req.key (hash req) in
        rw (check_idempotency_fresh table hash describe req given at.start at.new_id st fresh) (
          rw named (
            refl,
            refl,
            update-IsFailed (crash_data table hash describe t) r₀
                (record { cache = st.cache; db = create r₀ st.db })
                (IsOnly-create at.start at.new_id st fresh new) named refl fresh.uncached,
          ))

    -- The check of a request that has failed: it is to be executed again, under its old record.
    check_idempotency_failed :
        (now : ℕ) (new_id : String) (st : State table) (bad : IsFailed st)
        → check_idempotency table hash now new_id req st ≡ (
          record { cache = st.cache; db = update bad.row.id (retried now) st.db },
          ok (record {
            record_id = bad.row.id;
            should_execute = true;
            cached_response = undefined;
          }),
        )
    unfolding check_idempotency check_database resume
    check_idempotency_failed now new_id st bad = rw given (
        rw (get_from_cache_missing table hash describe req given now st bad.uncached) (
          ground (
            arith,
            IsOnly-find_first bad.row st.db bad.one,
            bad.status,
            bad.same,
            eq_iff bad.row.request_hash (hash req),
          )))

    only-IsDone :
        (now : ℕ) (body : Value) (r : IdempotencyRecord) (st : State table)
        → IsOnly r st.db
        → r.status ≡ completed
        → r.request_hash ≡ hash req
        → r.response_body ≡ body
        → IsDone table req.key
            (hash req)
            body
            (record { cache = set_cache now req.key body st.cache; db = st.db })
    only-IsDone now body r st one finished same answer = record {
      rows = λ i s e named.
          ground (arith, one.only i s e named, one.stored, e, finished, same, answer);
      row = r;
      stored = one.stored;
      keyed = one.keyed;
      cached = set_cache-CacheAgrees table req.key (hash req) body now st.cache;
    }

    -- A request whose one record says that it has failed, with no answer in the cache, is sent to
    -- auth-service again, whatever the time; when auth-service answers with a status below 400 and
    -- a body, that body is returned, and the request is then done like one that succeeded at once.
    -- The key is not empty.
    pub register_retries :
        (at : Moment) (status : ℕ) (body : Value) (st : State table)
        → IsFailed st
        → leb 400 status ≡ false
        → is_undefined body ≡ false
        → let (st', out) = register table hash describe at req (replies status body) st in
          (out.result ≡ ok body) × (out.called ≡ true) × IsDone table req.key (hash req) body st'
    unfolding register after_check execute cache_response mark_completed
    register_retries at status body st bad success defined =
        let again = IsOnly-update (retried at.start) bad.row st.db (λ x. refl) refl bad.one in
        let one =
          IsOnly-update (completed_with status body) (retried at.start bad.row)
            (update bad.row.id (retried at.start) st.db) (λ x. refl) refl again in
        rw (check_idempotency_failed at.start at.new_id st bad) (
          rw success (
            rw bad.named (
              rw given (
                refl,
                refl,
                only-IsDone at.finish body (completed_with status body (retried at.start bad.row))
                    (record {
                      cache = st.cache;
                      db =
                          update bad.row.id (completed_with status body)
                            (update bad.row.id (retried at.start) st.db);
                    })
                    one refl bad.same (rw defined refl),
              ))))
