-- ===== src/Gateway/Idempotency/Once.antt =====
-- No request under another key undoes a completed one.
use backend_core_platform.Container.JsMap
use backend_core_platform.Container.JsMap.{get-set, get-delete}
use backend_core_platform.External.Table.{Table, KeepsId}
use backend_core_platform.Common.Errors.ErrorCodes
use backend_core_platform.Common.Errors.{Result, ok, throws, fail, Thrown}
use backend_core_platform.Gateway.Idempotency.{
  IdempotencyRecord, IdempotencyRequest, Status, completed, processing, failed, Checked, Cache,
  State, record_id, has_key, is_null, is_undefined, retried, new_record, completed_with,
  failed_with, check_idempotency, check_database, resume, get_from_cache, set_cache, cache_response,
  mark_completed, mark_failed,
}
use backend_core_platform.Gateway.Idempotency.Register.{
  Upstream, replies, breaks, Moment, register, after_check, execute, recover, crash_data,
}
use backend_core_platform.Gateway.Idempotency.Replay.{IsDone, CacheAgrees, recached}
use backend_core_platform.Gateway.Idempotency.Writes.{update-IsDone, create-IsDone, KeepsKey}
use backend_core_platform.Base.{
  ℕ, ◌+◌, String, ◌≡◌, refl, sym, ◌∙◌, ◌≢◌, ◌⊎◌, inl, inr, Bool, true, false, not, ◌&&◌, none, some,
  arith, eq_iff, eq_refl, leb, ◌==◌, Eq_ℕ, Eq_String, if◌then◌else◌, is_empty, Bool-cases,
  Option-cases, Value,
}

module _ (table : Table IdempotencyRecord record_id) where
  open table use {
    Db, find, find_id, find_first, find_first_found, find_first_missing, create, update,
    find-create, find-update,
  }

  module _ (key h : String) (body : Value) where
    -- The request under another key: it reads and writes records of its own key only.
    module _ (hash : IdempotencyRequest → String) (describe : Thrown → String)
        (req : IdempotencyRequest) (other : req.key ≢ key) where
      set_cache_other :
          (now : ℕ) (v : Value) (cache : Cache)
          → CacheAgrees table key body cache
          → CacheAgrees table key body (set_cache now req.key v cache)
      unfolding set_cache
      set_cache_other now v cache agrees c e = ground (
        arith,
        get-set key req.key (record { response = v; expires_at = now + 300000 }) cache,
        eq_iff req.key key,
        agrees c,
        e,
      )

      get_from_cache_other :
          (now : ℕ) (cache : Cache)
          → CacheAgrees table key body cache
          → CacheAgrees table key body (get_from_cache now req.key cache).0
      unfolding get_from_cache
      get_from_cache_other now cache agrees c e = elim (Option-cases (JsMap.get req.key cache)) [
        | inl missing ↦ ground (arith, agrees c, e, missing)
        | inr (d, held) ↦
            ground (arith, agrees c, e, held, get-delete key req.key cache, eq_iff req.key key)
      ]

      -- The id that `checkIdempotency` hands on is empty or that of a record under its own key.
      abbrev Own : String → State table → Type 0
      Own id st =
          (is_empty id ≡ true)
          ⊎ ((r : IdempotencyRecord) × (find id st.db ≡ some r) × (r.key ≡ req.key))

      abbrev Kept : State table × Result Checked → Type 0
      Kept (st, throws t) = IsDone table key h body st
      Kept (st, ok c) = IsDone table key h body st × Own c.record_id st

      resume_other :
          (now : ℕ) (r : IdempotencyRecord) (status : Status) (st : State table)
          → r.status ≡ status
          → find r.id st.db ≡ some r
          → r.key ≡ req.key
          → IsDone table key h body st
          → Kept (resume table now req.key r st)
      unfolding resume
      resume_other now r completed st e held named done =
          rw (e, resume)
            (
              recached table key h body done
                  (set_cache_other now r.response_body st.cache done.cached),
              inr (r, held, named),
            )
      resume_other now r processing st e held named done = rw (e, resume) done
      resume_other now r failed st e held named done =
          rw (e, resume)
            (
              update-IsDone table key h body st.cache r.id (retried now) r st (λ x. refl)
                  (λ x. refl) held (λ k. other (sym named ∙ k)) done.cached done,
              inr (
                retried now r,
                ground (
                  arith,
                  find-update r.id r.id (retried now) st.db (λ x. refl),
                  eq_refl r.id,
                  held,
                ),
                named,
              ),
            )

      found_other :
          (now : ℕ) (hash' : String) (r : IdempotencyRecord) (st : State table)
          → find r.id st.db ≡ some r
          → r.key ≡ req.key
          → IsDone table key h body st
          → Kept (
              if not (r.request_hash == hash')
              then (
                st,
                fail ErrorCodes.conflict 409
                    "Idempotency key conflict: different request with same key",
              )
              else resume table now req.key r st)
      found_other now hash' r st held named done = elim (Bool-cases (r.request_hash == hash')) [
        | inl same ↦ rw same (resume_other now r r.status st refl held named done)
        | inr changed ↦ rw changed done
      ]

      check_database_other :
          (now : ℕ) (new_id hash' : String) (st : State table)
          → find new_id st.db ≡ none
          → IsDone table key h body st
          → Kept (check_database table now new_id req.key hash' st)
      unfolding check_database
      check_database_other now new_id hash' st new done =
          elim (Option-cases (find_first (has_key req.key) st.db)) [
            | inl missing ↦
                rw (missing, check_database)
                  (
                    create-IsDone table key h body st.cache (new_record now new_id req.key hash') st
                        new other done.cached done,
                    inr (
                      new_record now new_id req.key hash',
                      (ground (
                        arith,
                        find-create new_id (new_record now new_id req.key hash') st.db,
                        eq_refl new_id,
                      )),
                      refl,
                    ),
                  )
            | inr (r, found) ↦
                let (held, named) = find_first_found (has_key req.key) r st.db found in
                rw (found, check_database)
                  (found_other now hash' r st held ((eq_iff r.key req.key).0 named) done)
          ]

      check_idempotency_other :
          (now : ℕ) (new_id : String) (st : State table)
          → find new_id st.db ≡ none
          → IsDone table key h body st
          → Kept (check_idempotency table hash now new_id req st)
      unfolding check_idempotency
      check_idempotency_other now new_id st new done =
          let cache = (get_from_cache now req.key st.cache).0 in
          let kept =
            recached table key h body done (get_from_cache_other now st.cache done.cached) in
          elim (Bool-cases (is_empty req.key)) [
            | inl unkeyed ↦ rw unkeyed (done, inl refl)
            | inr given ↦ elim (Bool-cases (is_null (get_from_cache now req.key st.cache).1)) [
              | inl missed ↦ rw given (
                  rw missed (
                    check_database_other now new_id (hash req)
                      (record { cache = cache; db = st.db }) new kept))
              | inr hit ↦ rw given (rw hit (kept, inl refl))
            ]
          ]

      changed_other :
          (f : IdempotencyRecord → IdempotencyRecord) (id : String) (st : State table)
          → KeepsId record_id f
          → KeepsKey f
          → Own id st
          → IsDone table key h body st
          → let st' : State table =
              if is_empty id then st else record { cache = st.cache; db = update id f st.db } in
            IsDone table key h body st' × Own id st'
      changed_other f id st keeps same (inl empty) done = rw empty (done, inl refl)
      changed_other f id st keeps same (inr (r, held, named)) done =
          elim (Bool-cases (is_empty id)) [
            | inl empty ↦ rw empty (done, inl refl)
            | inr given ↦ rw given (
              update-IsDone table key h body st.cache id f r st keeps same held
                  (λ k. other (sym named ∙ k)) done.cached done,
              inr (
                f r,
                ground (arith, find-update id id f st.db keeps, eq_refl id, held),
                same r ∙ named,
              ),
            )
          ]

      cache_response_other :
          (now : ℕ) (v : Value) (cache : Cache)
          → CacheAgrees table key body cache
          → CacheAgrees table key body (cache_response now req.key v cache)
      unfolding cache_response
      cache_response_other now v cache agrees = elim (Bool-cases (is_empty req.key)) [
        | inl unkeyed ↦ rw unkeyed agrees
        | inr given ↦ rw given (set_cache_other now v cache agrees)
      ]

      recover_other :
          (id : String) (t : Thrown) (called : Bool) (st : State table)
          → Own id st
          → IsDone table key h body st
          → IsDone table key h body (recover table hash describe id t called st).0
      unfolding recover mark_failed
      recover_other id t called st own done =
          (changed_other (failed_with 500 (crash_data table hash describe t)) id st (λ r. refl)
            (λ r. refl) own done).0

      execute_other :
          (now : ℕ) (id : String) (upstream : Upstream) (st : State table)
          → Own id st
          → IsDone table key h body st
          → IsDone table key h body (execute table hash describe now req.key id upstream st).0
      unfolding execute mark_failed mark_completed
      execute_other now id (breaks t) st own done = recover_other id t true st own done
      execute_other now id (replies status answer) st own done =
          let (failed_kept, failed_own) =
            changed_other (failed_with status answer) id st (λ r. refl) (λ r. refl) own done in
          let (done_kept, _) =
            changed_other (completed_with status answer) id st (λ r. refl) (λ r. refl) own done in
          elim (Bool-cases (leb 400 status)) [
            | inl rejected ↦ rw rejected (recover_other id _ true _ failed_own failed_kept)
            | inr accepted ↦ elim (Bool-cases (is_empty id)) [
              | inl empty ↦ rw accepted (rw empty done)
              | inr given ↦ rw accepted (
                  rw given (
                    recached table key h body (rw given at done_kept)
                      (cache_response_other now answer st.cache done.cached)))
            ]
          ]

      -- A request under another key.
      pub register_other :
          (at : Moment) (upstream : Upstream) (st : State table)
          → find at.new_id st.db ≡ none
          → IsDone table key h body st
          → IsDone table key h body (register table hash describe at req upstream st).0
      unfolding register after_check
      register_other at upstream st new done =
          settle (check_idempotency table hash at.start at.new_id req st)
            (check_idempotency_other at.start at.new_id st new done)
        where
          settle :
              (out : State table × Result Checked)
              → Kept out
              → IsDone table key h body
                  (after_check table hash describe at.finish req.key upstream out).0
          settle (s, throws t) kept = recover_other "" t false s (inl refl) kept
          settle (s, ok c) (kept, own) =
              elim (Bool-cases (not c.should_execute && not (is_undefined c.cached_response))) [
                | inl settled ↦ rw settled kept
                | inr open_request ↦
                    rw open_request (execute_other at.finish c.record_id upstream s own kept)
              ]
