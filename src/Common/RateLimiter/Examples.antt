-- ===== src/Common/RateLimiter/Examples.antt =====
-- Concrete requests, on a Redis in memory.

use backend_core_platform.Container.JsMap
use backend_core_platform.External.Redis.Memory
use backend_core_platform.External.Redis.Memory.{memory}
use backend_core_platform.Common.Errors.{ok}
use backend_core_platform.Common.RateLimiter.{Options, check, script, admit}
use backend_core_platform.Common.RateLimiter.Key.{
  RateLimitRule, KeyRequest, Host, build_key, identifier, extract_ip,
}
use backend_core_platform.Common.RateLimiter.Window.{
  passes, IsExpiring, passes_fresh, retry_after_passes, check-IsExpiring,
}
use backend_core_platform.Common.RateLimiter.Guard.{
  Headers, Moments, can_activate, can_activate_iff, all_allow, check_rules, set_headers,
}
use backend_core_platform.Base.{
  ◌+◌, ◌<◌, ◌≡◌, refl, ◌↔◌, true, false, none, some, List, [], ◌∷◌, arith, coalesce, as_text,
  undefined,
}

abbrev options : Options
options = record { key_prefix = none; disabled = none }

abbrev no_counters : memory.Store
no_counters = []

passes_fresh_example :
    passes memory options "login:ip" 2 60 (100 ∷ 200 ∷ 300 ∷ 400 ∷ []) no_counters ≡ 2
unfolding Memory.entry JsMap.get
passes_fresh_example =
    passes_fresh memory options refl "login:ip" 2 60 100 (200 ∷ 300 ∷ 400 ∷ []) no_counters
      (omega arith) (omega arith) refl (omega arith)

no_counters-IsExpiring : IsExpiring memory no_counters
unfolding Memory.entry JsMap.get
no_counters-IsExpiring j c e = cc

abbrev after_one : memory.Store
after_one = (check memory options true 100 "login:ip" 1 60 no_counters).0

after_one-IsExpiring : IsExpiring memory after_one
after_one-IsExpiring =
    check-IsExpiring memory options true 100 "login:ip" 1 60 no_counters no_counters-IsExpiring

refused : (check memory options true 200 "login:ip" 1 60 after_one).1.allowed ≡ false
unfolding check script admit Memory.entry JsMap.get Memory.incr Memory.pexpire JsMap.set
refused = refl

waits : 200 + (check memory options true 200 "login:ip" 1 60 after_one).1.retry_after_ms < 60101
unfolding check script admit Memory.entry JsMap.get Memory.incr Memory.pexpire JsMap.set
waits = omega arith

retry_after_passes_example :
    let (s', result) = check memory options true 200 "login:ip" 1 60 after_one in
    let exact = check memory options true (200 + result.retry_after_ms) "login:ip" 1 60 s' in
    (exact.1.allowed ≡ false)
    × (exact.1.retry_after_ms ≡ 0)
    × ((check memory options true 60101 "login:ip" 1 60 s').1.allowed ≡ true)
retry_after_passes_example =
    retry_after_passes memory options refl "login:ip" 1 60 200 60101 after_one (omega arith)
      after_one-IsExpiring refused waits

abbrev host : Host
host = record {
  trim = λ s. s;
  to_lower_case = λ s. s;
  to_text = λ v. coalesce (as_text v) "";
  sha256_hex = λ s. s;
}

abbrev request : KeyRequest
request = record {
  forwarded = undefined;
  ip = some "10.0.0.1";
  remote_address = none;
  user_id = none;
  user_sub = none;
  body = undefined;
}

abbrev by_ip : RateLimitRule
by_ip = record { prefix = "login"; limit = 1; window = 60; key_source = "ip"; message = none }

abbrev at : Moments
at = record { time = λ i. 100 + i; reachable = λ i. true }

abbrev two_rules : List RateLimitRule
two_rules = by_ip ∷ by_ip ∷ []

can_activate_iff_example :
    ((can_activate memory options host request at (some two_rules) no_counters).result ≡ ok true)
    ↔ (all_allow memory options host request at 0 two_rules no_counters ≡ true)
can_activate_iff_example =
    can_activate_iff memory options host request at (some two_rules) no_counters

second_refuses : all_allow memory options host request at 0 two_rules no_counters ≡ false
unfolding check script admit Memory.entry JsMap.get Memory.incr Memory.pexpire JsMap.set build_key
    identifier extract_ip
second_refuses = refl

abbrev shown : Headers
shown = record { limit = 1; remaining = 0; retry_after = none }

one_passes :
    ((can_activate memory options host request at (some (by_ip ∷ [])) no_counters).result ≡ ok true)
    × ((can_activate memory options host request at (some (by_ip ∷ [])) no_counters).headers
        ≡ some shown)
unfolding can_activate check_rules set_headers check script admit Memory.entry JsMap.get Memory.incr
    Memory.pexpire JsMap.set build_key identifier extract_ip
one_passes = (refl, refl)
