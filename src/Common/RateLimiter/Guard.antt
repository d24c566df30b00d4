-- ===== src/Common/RateLimiter/Guard.antt =====
-- packages/common/src/rate-limiter/rate-limiter.guard.ts: all rules of a route, in their order.
use backend_core_platform.External.Redis.{Redis}
use backend_core_platform.Common.Errors.ErrorCodes
use backend_core_platform.Common.Errors.{Result, ok, fail}
use backend_core_platform.Common.RateLimiter.{RateLimitResult, Options, check}
use backend_core_platform.Common.RateLimiter.Key.{RateLimitRule, KeyRequest, Host, build_key}
use backend_core_platform.Base.{
  ℕ, suc, ◌+◌, ◌/◌, ◌≤◌, ◌≡◌, refl, ◌↔◌, inl, inr, Bool, true, false, ◌&&◌, Option, none, some,
  List, [], ◌∷◌, arith, ltb, if◌then◌else◌, coalesce, or_text, Bool-cases,
}

pub record Headers : Type 0 where
  pub limit : ℕ
  pub remaining : ℕ
  -- In seconds.
  pub retry_after : Option ℕ

-- Retry-After is rounded up to seconds, and is set only for a wait.
unfoldable pub set_headers : ℕ → ℕ → ℕ → Headers
set_headers limit remaining retry_after_ms = record {
  limit = limit;
  remaining = remaining;
  retry_after = if ltb 0 retry_after_ms then some ((retry_after_ms + 999) / 1000) else none;
}

abbrev Best : Type 0
Best = Option (RateLimitRule × RateLimitResult)

abbrev more_restrictive : RateLimitRule → RateLimitResult → Best → Best
more_restrictive rule result none = some (rule, result)
more_restrictive rule result (some (r, best)) =
    if ltb result.remaining best.remaining then some (rule, result) else some (r, best)

abbrev headers_of : Best → Option Headers
headers_of none = none
headers_of (some (rule, result)) =
    some (set_headers rule.limit result.remaining result.retry_after_ms)

-- The time of the check of each rule, by its position, and whether Redis answers it.
pub record Moments : Type 0 where
  pub time : ℕ → ℕ
  pub reachable : ℕ → Bool

module _ (redis : Redis) (o : Options) (host : Host) (req : KeyRequest) where
  open redis use {Store}

  pub record Outcome : Type 0 where
    pub store : redis.Store
    pub headers : Option Headers
    pub result : Result Bool

  module _ (at : Moments) where
    abbrev pub checked : ℕ → RateLimitRule → Store → Store × RateLimitResult
    checked i rule s =
        check redis o (at.reachable i) (at.time i) (build_key host req rule) rule.limit rule.window
          s

    abbrev pub too_many : RateLimitRule → Result Bool
    too_many rule =
        fail ErrorCodes.too_many_requests 429
          (or_text rule.message "Too many requests, please try again later")

    -- The loop over the rules from position `i` on.
    unfoldable pub check_rules : ℕ → Best → List RateLimitRule → Store → Outcome
    check_rules i best [] s = record { store = s; headers = headers_of best; result = ok true }
    check_rules i best (rule ∷ rules) s =
        let (s', result) = checked i rule s in
        let rest = check_rules (suc i) (more_restrictive rule result best) rules s' in
        if result.allowed then rest else record {
          store = s';
          headers = some (set_headers rule.limit 0 result.retry_after_ms);
          result = too_many rule;
        }

    unfoldable pub can_activate : Option (List RateLimitRule) → Store → Outcome
    unfolding check_rules
    can_activate none s = record { store = s; headers = none; result = ok true }
    can_activate (some rules) s = check_rules 0 none rules s

    -- The rules, each checked on what those before it left, all allow the request.
    abbrev pub all_allow : ℕ → List RateLimitRule → Store → Bool
    all_allow i [] s = true
    all_allow i (rule ∷ rules) s =
        (checked i rule s).1.allowed && all_allow (suc i) rules (checked i rule s).0

    -- The rules allow the request, told by what the guard returns.
    check_rules_iff :
        (i : ℕ) (best : Best) (rules : List RateLimitRule) (s : Store)
        → ((check_rules i best rules s).result ≡ ok true) ↔ (all_allow i rules s ≡ true)
    unfolding check_rules
    check_rules_iff i best [] s = (λ _. refl, λ _. refl)
    check_rules_iff i best (rule ∷ rules) s = elim (Bool-cases (checked i rule s).1.allowed) [
      | inl pass ↦ rw pass (
          check_rules_iff (suc i) (more_restrictive rule (checked i rule s).1 best) rules
            (checked i rule s).0)
      | inr stop ↦ rw stop (λ e. cc, λ e. cc)
    ]

    -- The guard lets a request pass exactly when every rule in turn, on what the rules before it left
    -- in Redis, allows it; it passes every request of a route without rules.
    pub can_activate_iff :
        (rules : Option (List RateLimitRule)) (s : Store)
        → ((can_activate rules s).result ≡ ok true) ↔ (all_allow 0 (coalesce rules []) s ≡ true)
    unfolding can_activate
    can_activate_iff none s = (λ _. refl, λ _. refl)
    can_activate_iff (some rules) s = check_rules_iff 0 none rules s

    abbrev pub RefusedBy : Outcome → Type 0
    RefusedBy out =
        (rule : RateLimitRule) × (wait : ℕ) × (out.result ≡ too_many rule)
        × (out.headers ≡ some (set_headers rule.limit 0 wait))

    check_rules_refused :
        (i : ℕ) (best : Best) (rules : List RateLimitRule) (s : Store)
        → all_allow i rules s ≡ false
        → RefusedBy (check_rules i best rules s)
    unfolding check_rules
    check_rules_refused i best [] s h = cc
    check_rules_refused i best (rule ∷ rules) s h = elim (Bool-cases (checked i rule s).1.allowed) [
      | inl pass ↦ rw pass (
          check_rules_refused (suc i) (more_restrictive rule (checked i rule s).1 best) rules
            (checked i rule s).0 (rw pass at h))
      | inr stop ↦ rw stop (rule, (checked i rule s).1.retry_after_ms, refl, refl)
    ]

    -- Where some rule of a route, in turn, does not allow a request, the guard throws 429
    -- TOO_MANY_REQUESTS with the message of a rule, and sets the headers of that rule's limit with
    -- nothing remaining.
    pub can_activate_refused :
        (rules : List RateLimitRule) (s : Store)
        → all_allow 0 rules s ≡ false
        → RefusedBy (can_activate (some rules) s)
    unfolding can_activate
    can_activate_refused rules s h = check_rules_refused 0 none rules s h

    abbrev AtMostBest : ℕ → Best → Type 0
    AtMostBest n none = Unit
    AtMostBest n (some (rule, result)) = n ≤ result.remaining

    -- A number is at most what every rule, checked in turn, says is left.
    abbrev pub AtMostAll : ℕ → ℕ → List RateLimitRule → Store → Type 0
    AtMostAll n i [] s = Unit
    AtMostAll n i (rule ∷ rules) s =
        (n ≤ (checked i rule s).1.remaining) × AtMostAll n (suc i) rules (checked i rule s).0

    AtMostBest-more_restrictive :
        (n : ℕ) (rule : RateLimitRule) (result : RateLimitResult) (best : Best)
        → AtMostBest n (more_restrictive rule result best)
        → AtMostBest n best × (n ≤ result.remaining)
    AtMostBest-more_restrictive n rule result none h = (tt, h)
    AtMostBest-more_restrictive n rule result (some (r, b)) h = ground arith

    check_rules_least :
        (i : ℕ) (best : Best) (rules : List RateLimitRule) (s : Store) (h : Headers)
        → (check_rules i best rules s).result ≡ ok true
        → (check_rules i best rules s).headers ≡ some h
        → AtMostBest h.remaining best × AtMostAll h.remaining i rules s
    unfolding check_rules set_headers
    check_rules_least i none [] s h passed e = (tt, tt)
    check_rules_least i (some (rule, result)) [] s h passed e = (ground arith, tt)
    check_rules_least i best (rule ∷ rules) s h passed e =
        elim (Bool-cases (checked i rule s).1.allowed) [
          | inl pass ↦
              let (old, later) =
                check_rules_least (suc i) (more_restrictive rule (checked i rule s).1 best) rules
                  (checked i rule s).0 h (rw pass at passed) (rw pass at e) in
              let (kept, here) =
                AtMostBest-more_restrictive h.remaining rule (checked i rule s).1 best old in
              (kept, (here, later))
          | inr stop ↦ let false_pass = (rw stop at passed) in cc
        ]

    -- Of a request that passes, where headers are set, X-RateLimit-Remaining is at most what any
    -- of the rules, checked in turn, says is left.
    pub can_activate_least :
        (rules : List RateLimitRule) (s : Store) (h : Headers)
        → (can_activate (some rules) s).result ≡ ok true
        → (can_activate (some rules) s).headers ≡ some h
        → AtMostAll h.remaining 0 rules s
    unfolding can_activate
    can_activate_least rules s h passed e = (check_rules_least 0 none rules s h passed e).1
