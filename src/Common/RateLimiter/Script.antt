-- ===== src/Common/RateLimiter/Script.antt =====
-- The Lua script on the counter at a key.
use backend_core_platform.External.Redis.{
  Redis, Counter, live, count_of, incremented, remaining_time,
}
use backend_core_platform.Common.RateLimiter.{admit, script}
use backend_core_platform.Base.{
  ℕ, suc, ◌+◌, ◌-◌, ◌≤◌, ◌<◌, String, ◌≡◌, refl, Option, none, some, arith, eq_refl, ◌==◌, Eq_ℕ,
  Eq_String, if◌then◌else◌, coalesce, le→leb, lt→leb_false, ℤ, is_negative, max_zero, pos,
}

-- What a request that is counted makes of the counter at its key.
abbrev pub counted : ℕ → ℕ → Option Counter → Option Counter
counted now window e =
    let c = incremented e in
    if c.count == 1
    then (if window == 0
        then none
        else some (record { count = 1; expires_at = some (now + window) }))
    else some c

pub count-incremented : (e : Option Counter) → (incremented e).count ≡ suc (coalesce (count_of e) 0)
count-incremented none = refl
count-incremented (some c) = omega arith

pub live-incremented :
    (now : ℕ) (e : Option Counter)
    → live now (some (incremented (live now e))) ≡ some (incremented (live now e))
live-incremented now none = refl
live-incremented now (some c) = ground arith

module _ (redis : Redis) where
  open redis use {
    Store, entry, get, get_lem, incr, entry-incr, count-incr, pexpire, entry-pexpire, pttl,
    pttl_lem,
  }

  pub entry-admit :
      (now : ℕ) (k j : String) (window : ℕ) (s : Store)
      → entry j (admit redis now k window s).0
        ≡ (if k == j then counted now window (live now (entry k s)) else entry j s)
  unfolding admit
  entry-admit now k j window s = ground (
    arith,
    count-incr now k s,
    entry-incr now k j s,
    entry-incr now k k s,
    eq_refl k,
    entry-pexpire now k j window (incr now k s).0,
    live-incremented now (entry k s),
  )

  pub admit_reply :
      (now : ℕ) (k : String) (window : ℕ) (s : Store)
      → ((admit redis now k window s).1.allowed ≡ 1)
        × ((admit redis now k window s).1.count ≡ (incremented (live now (entry k s))).count)
  unfolding admit
  admit_reply now k window s = (refl, count-incr now k s)

  -- The count that the script reads.
  abbrev pub current : ℕ → String → Store → ℕ
  current now k s = coalesce (count_of (live now (entry k s))) 0

  abbrev pub time_left : ℕ → ℕ → Option Counter → ℤ
  time_left now window e =
      let ttl = remaining_time now e in if is_negative ttl then pos window else ttl

  pub time_left_dated :
      (now window t : ℕ) (c : Counter)
      → c.expires_at ≡ some t
      → max_zero (time_left now window (some c)) ≡ t - now
  time_left_dated now window t c dated = rw (dated, max_zero)

  pub script_refuses :
      (now : ℕ) (k : String) (limit window : ℕ) (s : Store)
      → limit ≤ current now k s
      → script redis now k limit window s ≡ (
        s,
        record {
          allowed = 0;
          count = current now k s;
          ttl_ms = time_left now window (live now (entry k s));
        },
      )
  unfolding script
  script_refuses now k limit window s h =
      rw (get_lem now k s) (rw (le→leb limit (current now k s) h) (rw (pttl_lem now k s)))

  pub script_admits :
      (now : ℕ) (k : String) (limit window : ℕ) (s : Store)
      → current now k s < limit
      → script redis now k limit window s ≡ admit redis now k window s
  unfolding script
  script_admits now k limit window s h =
      rw (get_lem now k s) (rw (lt→leb_false limit (current now k s) h))
