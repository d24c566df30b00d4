-- ===== src/Common/RateLimiter.antt =====
-- packages/common/src/rate-limiter: the Lua script and the service that runs it.
pub mod Script
pub mod Window
pub mod Key
pub mod Guard
pub mod Examples
use backend_core_platform.External.Redis.{Redis}
use backend_core_platform.Base.{
  ℕ, ◌-◌, ◌*◌, String, Bool, true, false, not, ◌||◌, Option, leb, ◌==◌, Eq_ℕ, Eq_String,
  if◌then◌else◌, coalesce, concat, ℤ, is_negative, max_zero, pos,
}

-- What the script returns: allowed (0 or 1), the count, and the time to live.
pub record Reply : Type 0 where
  pub allowed : ℕ
  pub count : ℕ
  pub ttl_ms : ℤ

pub record RateLimitResult : Type 0 where
  pub allowed : Bool
  pub count : ℕ
  pub remaining : ℕ
  pub retry_after_ms : ℕ

pub record Options : Type 0 where
  pub key_prefix : Option String
  pub disabled : Option Bool

abbrev pub key_prefix : Options → String
key_prefix o = coalesce o.key_prefix "rl"

abbrev pub disabled : Options → Bool
disabled o = coalesce o.disabled false

-- `${this.keyPrefix}:${key}`
abbrev pub full_key : Options → String → String
full_key o key = concat (key_prefix o) (concat ":" key)

-- Without Redis, or where it fails, a request is let through.
abbrev pub let_through : ℕ → RateLimitResult
let_through limit = record { allowed = true; count = 0; remaining = limit; retry_after_ms = 0 }

abbrev pub result_of : ℕ → Reply → RateLimitResult
result_of limit reply = record {
  allowed = reply.allowed == 1;
  count = reply.count;
  remaining = limit - reply.count;
  retry_after_ms = if reply.allowed == 1 then 0 else max_zero reply.ttl_ms;
}

module _ (redis : Redis) where
  open redis use {Store, get, incr, pexpire, pttl, del}

  -- The branch of the script that counts the request.
  unfoldable pub admit : ℕ → String → ℕ → Store → Store × Reply
  admit now key window s =
      let (counted, count) = incr now key s in
      let timed = if count == 1 then pexpire now key window counted else counted in
      (timed, record { allowed = 1; count = count; ttl_ms = pttl now key timed })

  -- RATE_LIMIT_LUA_SCRIPT, which Redis runs as one step, at the time `now`.
  unfoldable pub script : ℕ → String → ℕ → ℕ → Store → Store × Reply
  unfolding admit
  script now key limit window s =
      let current = coalesce (get now key s) 0 in
      let ttl = pttl now key s in
      if leb limit current
      then (
        s,
        record {
          allowed = 0;
          count = current;
          ttl_ms = if is_negative ttl then pos window else ttl;
        },
      )
      else admit now key window s

  -- `reachable` says whether `redis.eval` succeeds.
  unfoldable pub check : Options → Bool → ℕ → String → ℕ → ℕ → Store → Store × RateLimitResult
  unfolding script
  check o reachable now key limit window_seconds s =
      if disabled o || not reachable
      then (s, let_through limit)
      else (let (s', reply) = script now (full_key o key) limit (window_seconds * 1000) s in
          (s', result_of limit reply))

  unfoldable pub reset : Options → String → Store → Store
  reset o key s = del (full_key o key) s
