-- ===== src/Common/RateLimiter/Window.antt =====
-- The fixed window that the script keeps at a key.
use backend_core_platform.External.Redis.{Redis, Counter, live}
use backend_core_platform.Common.RateLimiter.{Options, disabled, full_key, result_of, admit, check}
use backend_core_platform.Common.RateLimiter.Script.{
  counted, count-incremented, entry-admit, admit_reply, current, time_left, time_left_dated,
  script_refuses, script_admits,
}
use backend_core_platform.Base.{
  ℕ, suc, ◌+◌, ◌-◌, ◌*◌, ◌≤◌, ◌<◌, min, String, ◌≡◌, refl, ap, ◌∙◌, ◌≢◌, inl, inr, Bool, true,
  false, not, ◌||◌, none, some, List, [], ◌∷◌, arith, eq_iff, eq_refl, dec_lt, if◌then◌else◌,
  is_some, Bool-cases, Option-cases, length, All, max_zero,
}

module _ (redis : Redis) where
  open redis use {
    Store, entry, get, get_lem, incr, entry-incr, count-incr, pexpire, entry-pexpire, pttl,
    pttl_lem,
  }

  -- How many of the requests at the given times, in this order, pass while Redis is reachable.
  unfoldable pub passes : Options → String → ℕ → ℕ → List ℕ → Store → ℕ
  passes o key limit window [] s = 0
  passes o key limit window (now ∷ times) s =
      (if (check redis o true now key limit window s).1.allowed then 1 else 0)
      + passes o key limit window times (check redis o true now key limit window s).0

  -- Every counter has an expiry.
  abbrev pub IsExpiring : Store → Type 0
  IsExpiring s = (j : String) (c : Counter) → entry j s ≡ some c → is_some c.expires_at ≡ true

  module _ (o : Options) (on : disabled o ≡ false) (key : String) (limit window : ℕ) where
    abbrev k : String
    k = full_key o key

    check_refuses :
        (now : ℕ) (s : Store)
        → limit ≤ current redis now k s
        → check redis o true now key limit window s ≡ (
          s,
          record {
            allowed = false;
            count = current redis now k s;
            remaining = 0;
            retry_after_ms = max_zero (time_left redis now (window * 1000) (live now (entry k s)));
          },
        )
    unfolding check
    check_refuses now s h = rw on (
        rw (script_refuses redis now k limit (window * 1000) s h)
          (let none_left : limit - current redis now k s ≡ 0 = omega arith in rw none_left))

    check-admit :
        (now : ℕ) (s : Store)
        → current redis now k s < limit
        → check redis o true now key limit window s ≡ (
          (admit redis now k (window * 1000) s).0,
          result_of limit (admit redis now k (window * 1000) s).1,
        )
    unfolding check
    check-admit now s h = rw on (rw (script_admits redis now k limit (window * 1000) s h))

    -- A request below the limit passes, is counted, and is told how many are left.
    check_admits :
        (now : ℕ) (s : Store)
        → current redis now k s < limit
        → let (s', result) = check redis o true now key limit window s in
          (entry k s' ≡ counted now (window * 1000) (live now (entry k s)))
          × (result.allowed ≡ true)
          × (result.count ≡ suc (current redis now k s))
          × (result.remaining ≡ limit - suc (current redis now k s))
          × (result.retry_after_ms ≡ 0)
    check_admits now s h =
        let ms : ℕ = window * 1000 in
        let step = check-admit now s h in
        let stored = entry-admit redis now k k ms s in
        let (passed, number) = admit_reply redis now k ms s in
        let grown = number ∙ count-incremented (live now (entry k s)) in
        rw step (
          rw (eq_refl k) at stored,
          rw passed refl,
          grown,
          ap (λ n. limit - n) grown,
          rw passed refl,
        )

    passes_open :
        (times : List ℕ) (c t : ℕ) (s : Store)
        → entry k s ≡ some (record { count = c; expires_at = some t })
        → 1 ≤ c
        → c ≤ limit
        → All (λ now. now ≤ t) times
        → passes o key limit window times s ≡ min (length times) (limit - c)
    unfolding passes
    passes_open [] c t s e one below h = omega arith
    passes_open (now ∷ times) c t s e one below (h, hs) =
        let held : live now (entry k s) ≡ some (record { count = c; expires_at = some t }) =
          rw (e, live) (ground (arith, h)) in
        let read : current redis now k s ≡ c = rw held refl in
        elim (dec_lt c limit) [
          | yes room ↦
              let (stored, passed, _, _, _) = check_admits now s (rw read room) in
              let next : counted now (window * 1000) (live now (entry k s))
                  ≡ some (record { count = c + 1; expires_at = some t }) =
                rw held (ground arith) in
              rw passed (
                omega (
                  arith,
                  passes_open times (c + 1) t (check redis o true now key limit window s).0
                      (stored ∙ next) (omega arith) (omega arith) hs,
                ))
          | no full ↦
              rw (check_refuses now s (omega arith))
                (omega (arith, passes_open times c t s e one below hs))
        ]

    -- With the limiter enabled, Redis reachable, a limit and a window of at least 1 and no live counter
    -- at the key: of a request and those that follow it within the window that it opens, up to its
    -- last millisecond, exactly the first `limit` pass.
    pub passes_fresh :
        (now : ℕ) (times : List ℕ) (s : Store)
        → 1 ≤ limit
        → 1 ≤ window
        → live now (entry k s) ≡ none
        → All (λ t. t ≤ now + window * 1000) times
        → passes o key limit window (now ∷ times) s ≡ min (suc (length times)) limit
    unfolding passes
    passes_fresh now times s positive opens gone hs =
        let read : current redis now k s ≡ 0 = rw gone refl in
        let (stored, passed, _, _, _) = check_admits now s (rw read positive) in
        let next : counted now (window * 1000) (live now (entry k s))
            ≡ some (record { count = 1; expires_at = some (now + window * 1000) }) =
          rw gone (ground (arith, opens)) in
        rw passed (
          omega (
            arith,
            passes_open times 1 (now + window * 1000) (check redis o true now key limit window s).0
                (stored ∙ next) (omega arith) positive hs,
          ))

    -- Behind a refusal stands a counter that is full and not yet expired.
    refusing_counter :
        (now : ℕ) (s : Store)
        → 1 ≤ limit
        → IsExpiring s
        → (check redis o true now key limit window s).1.allowed ≡ false
        → (t : ℕ) × (c : Counter) × (entry k s ≡ some c)
          × (c.expires_at ≡ some t)
          × (now ≤ t)
          × (limit ≤ current redis now k s)
    refusing_counter now s positive expiring refused = elim (dec_lt (current redis now k s) limit) [
      | yes room ↦ cc (refused, (check_admits now s room).1)
      | no full ↦ elim (Option-cases (entry k s)) [
        | inl missing ↦
            absurd (let none_read : current redis now k s ≡ 0 = rw missing refl in omega arith)
        | inr (c, e) ↦ elim (Option-cases c.expires_at) [
          | inl forever ↦ cc (expiring k c e, ap is_some forever)
          | inr (t, dated) ↦ elim (dec_lt t now) [
            | no early ↦ (t, c, e, dated, omega arith, omega arith)
            | yes late ↦
                let none_read : current redis now k s ≡ 0 = ground (arith, e, dated) in
                absurd (omega arith)
          ]
        ]
      ]
    ]

    -- What a refusal says about when to come back, where the limiter is enabled, the limit is at least
    -- 1, and every counter has an expiry: with no request in between, every request that comes later
    -- than the wait passes. One that comes exactly after the wait is still refused, with a wait of 0,
    -- since Redis keeps a key up to and including the millisecond of its expiry.
    pub retry_after_passes :
        (now later : ℕ) (s : Store)
        → 1 ≤ limit
        → IsExpiring s
        → (check redis o true now key limit window s).1.allowed ≡ false
        → now + (check redis o true now key limit window s).1.retry_after_ms < later
        → let (s', result) = check redis o true now key limit window s in
          let exact = check redis o true (now + result.retry_after_ms) key limit window s' in
          (exact.1.allowed ≡ false)
          × (exact.1.retry_after_ms ≡ 0)
          × ((check redis o true later key limit window s').1.allowed ≡ true)
    retry_after_passes now later s positive expiring refused after =
        let (t, c, e, dated, early, full) = refusing_counter now s positive expiring refused in
        let held : live now (entry k s) ≡ some c = ground (arith, e, dated, early) in
        let wait : max_zero (time_left redis now (window * 1000) (live now (entry k s))) ≡ t - now =
          rw held (time_left_dated redis now (window * 1000) t c dated) in
        let at_end : live t (entry k s) ≡ some c = ground (arith, e, dated) in
        let full_at_end : limit ≤ current redis t k s =
          (let now_read : current redis now k s ≡ c.count = rw held refl in
            let end_read : current redis t k s ≡ c.count = rw at_end refl in
            omega (arith, full, now_read, end_read)) in
        let no_wait : max_zero (time_left redis t (window * 1000) (live t (entry k s))) ≡ t - t =
          rw at_end (time_left_dated redis t (window * 1000) t c dated) in
        let told : (check redis o true now key limit window s).1.retry_after_ms ≡ t - now =
          ap (λ x. x.1.retry_after_ms) (check_refuses now s full) ∙ wait in
        let past : t < later = omega (arith, after, told, early) in
        let gone : live later (entry k s) ≡ none = ground (arith, e, dated, past) in
        let read : current redis later k s ≡ 0 = rw gone refl in
        let arrives : now + (t - now) ≡ t = omega arith in
        rw (check_refuses now s full) (
          rw wait (
            rw arrives (
              rw (check_refuses t s full_at_end)
                (refl, no_wait ∙ omega arith, (check_admits later s (rw read positive)).1))))

  admit-IsExpiring :
      (now : ℕ) (key : String) (window : ℕ) (s : Store)
      → IsExpiring s
      → IsExpiring (admit redis now key window s).0
  admit-IsExpiring now key window s expiring j c e = elim (Option-cases (entry key s)) [
    | inl new ↦ ground (arith, entry-admit redis now key j window s, expiring j c, new)
    | inr (old, held) ↦
        ground
          (arith, entry-admit redis now key j window s, expiring j c, expiring key old held, held)
  ]

  -- Where every counter has an expiry, none is without one after a request, whatever its rule and
  -- whether Redis answers it: nobody is locked out for good.
  pub check-IsExpiring :
      (o : Options) (reachable : Bool) (now : ℕ) (key : String) (limit window : ℕ) (s : Store)
      → IsExpiring s
      → IsExpiring (check redis o reachable now key limit window s).0
  unfolding check
  check-IsExpiring o reachable now key limit window s expiring =
      elim (Bool-cases (disabled o || not reachable)) [
        | inl off ↦ rw off expiring
        | inr on ↦ elim (dec_lt (current redis now (full_key o key) s) limit) [
          | yes room ↦ rw on (
              rw (script_admits redis now (full_key o key) limit (window * 1000) s room)
                (admit-IsExpiring now (full_key o key) (window * 1000) s expiring))
          | no full ↦ rw on (
              rw (script_refuses redis now (full_key o key) limit (window * 1000) s (omega arith))
                expiring)
        ]
      ]

  -- A request, whatever its limit and window and whether Redis answers it, changes no counter but
  -- the one at its own key.
  pub entry-check_other :
      (o : Options) (reachable : Bool) (now : ℕ) (key j : String) (limit window : ℕ) (s : Store)
      → full_key o key ≢ j
      → entry j (check redis o reachable now key limit window s).0 ≡ entry j s
  unfolding check
  entry-check_other o reachable now key j limit window s ne =
      elim (Bool-cases (disabled o || not reachable)) [
        | inl off ↦ rw off refl
        | inr on ↦ elim (dec_lt (current redis now (full_key o key) s) limit) [
          | yes room ↦ rw on (
              rw (script_admits redis now (full_key o key) limit (window * 1000) s room) (
                ground (
                  arith,
                  entry-admit redis now (full_key o key) j (window * 1000) s,
                  eq_iff (full_key o key) j,
                )))
          | no full ↦ rw on (
              rw (script_refuses redis now (full_key o key) limit (window * 1000) s (omega arith))
                refl)
        ]
      ]
