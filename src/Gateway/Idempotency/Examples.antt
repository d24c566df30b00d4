-- ===== src/Gateway/Idempotency/Examples.antt =====
-- Concrete requests through the idempotency service, on a table in memory.
use backend_core_platform.Container.JsMap
use backend_core_platform.External.Table.{Table}
use backend_core_platform.External.Table.Memory
use backend_core_platform.External.Table.Memory.{memory}
use backend_core_platform.Common.Errors.{ok, throws, Thrown, service}
use backend_core_platform.Gateway.Idempotency.{
  check_idempotency, check_database, get_from_cache, set_cache, cache_response, mark_completed,
  IdempotencyRecord, IdempotencyRequest, State, record_id, new_record,
}
use backend_core_platform.Gateway.Idempotency.Register.{
  after_check, execute, Upstream, replies, Registered, Moment, register,
}
use backend_core_platform.Gateway.Idempotency.Replay.{IsDone}
use backend_core_platform.Gateway.Idempotency.Forever.{IsFresh, Run, here, next, register_once}
use backend_core_platform.Gateway.Idempotency.Retry.{
  IsFailed, thrown_for, register_fails, register_retries,
}
use backend_core_platform.Base.{
  String, ◌≡◌, refl, true, false, none, [], ◌∷◌, coalesce, Value, prop, as_text, null, str, obj,
  end, field,
}

abbrev table : Table IdempotencyRecord record_id
table = memory record_id

-- A hash that tells bodies apart by their e-mail alone.
abbrev hash : IdempotencyRequest → String
hash req = coalesce (as_text (prop "email" req.body)) ""

abbrev describe : Thrown → String
describe t = "error"

abbrev request_of : String → IdempotencyRequest
request_of email = record {
  method = "POST";
  path = "/client/auth/register";
  body = obj (field "email" (str email) end);
  key = "k1";
}

abbrev ann : IdempotencyRequest
ann = request_of "ann@x.org"

abbrev bob : IdempotencyRequest
bob = request_of "bob@x.org"

abbrev empty_state : State table
empty_state = record { cache = []; db = [] }

abbrev first_moment : Moment
first_moment = record { start = 100; finish = 120; new_id = "r1" }

abbrev later_moment : Moment
later_moment = record { start = 400000; finish = 400010; new_id = "r2" }

abbrev created : Value
created = obj (field "userId" (str "u1") end)

abbrev run_register :
    Moment → IdempotencyRequest → Upstream → State table → State table × Registered
run_register at req upstream st = register table hash describe at req upstream st

abbrev after_first : State table
after_first = (run_register first_moment ann (replies 201 created) empty_state).0

ann-IsFresh : IsFresh table hash describe ann refl empty_state
unfolding Memory.find_first JsMap.get
ann-IsFresh = record { unstored = refl; uncached = refl }

new_later : table.find later_moment.new_id after_first.db ≡ none
unfolding register after_check check_idempotency get_from_cache check_database execute
    cache_response mark_completed set_cache Memory.find Memory.find_first Memory.update JsMap.get
new_later = refl

-- Bob's request under the same key comes in between.
abbrev after_bob : State table
after_bob = (run_register later_moment bob (replies 201 null) after_first).0

bob_between : Run table hash describe after_first after_bob
bob_between = next later_moment bob (replies 201 null) new_later here

register_once_example :
    ((run_register first_moment ann (replies 201 created) empty_state).1.result ≡ ok created)
    × ((run_register first_moment ann (replies 201 created) empty_state).1.called ≡ true)
    × ((run_register later_moment ann (replies 500 null) after_bob).1.result ≡ ok created)
    × ((run_register later_moment ann (replies 500 null) after_bob).1.called ≡ false)
unfolding Memory.find
register_once_example =
    register_once table hash describe ann refl first_moment later_moment 201 created
      (replies 500 null) empty_state after_bob ann-IsFresh refl refl refl refl bob_between

-- Auth-service answers Ann's first request with 422.
abbrev rejection : Upstream
rejection = replies 422 (obj (field "message" (str "weak password") end))

abbrev after_rejection : State table
after_rejection = (run_register first_moment ann rejection empty_state).0

register_fails_example :
    ((run_register first_moment ann rejection empty_state).1.result
      ≡ throws (service (thrown_for table hash describe rejection)))
    × ((run_register first_moment ann rejection empty_state).1.called ≡ true)
    × IsFailed table hash describe ann refl after_rejection
unfolding Memory.find
register_fails_example =
    register_fails table hash describe ann refl first_moment rejection empty_state ann-IsFresh refl
      refl refl

ann-IsFailed : IsFailed table hash describe ann refl after_rejection
unfolding Memory.find
ann-IsFailed =
    (register_fails table hash describe ann refl first_moment rejection empty_state ann-IsFresh refl
      refl refl).2

abbrev after_retry : State table × Registered
after_retry = run_register later_moment ann (replies 201 created) after_rejection

register_retries_example :
    (after_retry.1.result ≡ ok created)
    × (after_retry.1.called ≡ true)
    × IsDone table ann.key (hash ann) created after_retry.0
register_retries_example =
    register_retries table hash describe ann refl later_moment 201 created after_rejection
      ann-IsFailed refl refl

-- Bob's request, after Ann's record and with no answer in the cache.
abbrev ann_record : IdempotencyRecord
ann_record = new_record 100 "r1" "k1" "ann@x.org"

abbrev ann_running : State table
ann_running = record { cache = []; db = ann_record ∷ [] }

abbrev ann_answered : State table
ann_answered = record {
  cache = ("k1", record { response = created; expires_at = 500000 }) ∷ [];
  db = [];
}
