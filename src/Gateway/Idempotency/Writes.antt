-- ===== src/Gateway/Idempotency/Writes.antt =====
-- Writes to the records of another key leave a completed request completed.
use backend_core_platform.External.Table.{Table, KeepsId}
use backend_core_platform.Gateway.Idempotency.{IdempotencyRecord, Cache, State, record_id}
use backend_core_platform.Gateway.Idempotency.Replay.{IsDone, CacheAgrees}
use backend_core_platform.Base.{String, ◌≡◌, ◌≢◌, none, some, arith, eq_iff, Value}

-- A change of a record that is made by its id keeps its key too.
abbrev pub KeepsKey : (IdempotencyRecord → IdempotencyRecord) → Type 0
KeepsKey f = (r : IdempotencyRecord) → (f r).key ≡ r.key

module _ (table : Table IdempotencyRecord record_id) where
  open table use {
    Db, find, find_id, find_first, find_first_found, find_first_missing, create, update,
    find-create, find-update,
  }

  module _ (key h : String) (body : Value) where
    -- A change of a record under another key.
    pub update-IsDone :
        (cache : Cache) (id : String) (f : IdempotencyRecord → IdempotencyRecord)
        (r₀ : IdempotencyRecord) (st : State table)
        → KeepsId record_id f
        → KeepsKey f
        → find id st.db ≡ some r₀
        → r₀.key ≢ key
        → CacheAgrees table key body cache
        → IsDone table key h body st
        → IsDone table key h body (record { cache = cache; db = update id f st.db })
    update-IsDone cache id f r₀ st keeps same held apart agrees done = record {
      rows = λ i r e named. ground (
        arith,
        find-update i id f st.db keeps,
        eq_iff id i,
        held,
        same r₀,
        apart,
        done.rows i r,
        e,
        named,
      );
      row = done.row;
      stored = ground (
        arith,
        find-update done.row.id id f st.db keeps,
        eq_iff id done.row.id,
        done.stored,
        done.keyed,
        held,
        apart,
      );
      keyed = done.keyed;
      cached = agrees;
    }

    pub create-IsDone :
        (cache : Cache) (r₀ : IdempotencyRecord) (st : State table)
        → find r₀.id st.db ≡ none
        → r₀.key ≢ key
        → CacheAgrees table key body cache
        → IsDone table key h body st
        → IsDone table key h body (record { cache = cache; db = create r₀ st.db })
    create-IsDone cache r₀ st new apart agrees done = record {
      rows = λ i r e named.
          ground (arith, find-create i r₀ st.db, eq_iff r₀.id i, apart, done.rows i r, e, named);
      row = done.row;
      stored =
          ground
            (arith, find-create done.row.id r₀ st.db, eq_iff r₀.id done.row.id, new, done.stored);
      keyed = done.keyed;
      cached = agrees;
    }
