-- ===== src/External/Redis.antt =====
-- The commands on counters that the rate limiter sends to Redis. A key holds a count and the time,
-- in milliseconds, at which it expires, if it has one.
pub mod Memory
use backend_core_platform.Base.{
  ℕ, ◌+◌, ◌-◌, String, ◌≡◌, Bool, false, Option, none, some, ltb, ◌==◌, Eq_ℕ, Eq_String,
  if◌then◌else◌, ℤ, pos, negsuc,
}

pub record Counter : Type 0 where
  pub count : ℕ
  pub expires_at : Option ℕ

-- A key is still there in the millisecond at which it expires, and is gone after it.
abbrev pub lapsed : ℕ → Option ℕ → Bool
lapsed now none = false
lapsed now (some t) = ltb t now

-- A key that has expired is as good as missing.
abbrev pub live : ℕ → Option Counter → Option Counter
live now none = none
live now (some c) = if lapsed now c.expires_at then none else some c

abbrev pub count_of : Option Counter → Option ℕ
count_of none = none
count_of (some c) = some c.count

-- INCR makes a missing key 1 and keeps the expiry of a present one.
abbrev pub incremented : Option Counter → Counter
incremented none = record { count = 1; expires_at = none }
incremented (some c) = record c { count = c.count + 1 }

-- PEXPIRE by a time of 0 deletes the key.
abbrev pub expiring : ℕ → ℕ → Option Counter → Option Counter
expiring now ms none = none
expiring now ms (some c) =
    if ms == 0 then none else some (record c { expires_at = some (now + ms) })

-- PTTL: -2 for a missing key, -1 for a key without expiry, else the milliseconds left.
abbrev pub remaining_time : ℕ → Option Counter → ℤ
remaining_time now none = negsuc 1
remaining_time now (some c) = elim c.expires_at [ none ↦ negsuc 0 | some t ↦ pos (t - now) ]

pub record Redis : Type 1 where
  pub Store : Type 0
  -- What is stored at a key, expired or not.
  pub entry : String → Store → Option Counter
  pub get : ℕ → String → Store → Option ℕ
  pub incr : ℕ → String → Store → Store × ℕ
  pub pexpire : ℕ → String → ℕ → Store → Store
  pub pttl : ℕ → String → Store → ℤ
  pub del : String → Store → Store
  pub get_lem : (now : ℕ) (k : String) (s : Store) → get now k s ≡ count_of (live now (entry k s))
  pub entry-incr :
      (now : ℕ) (k j : String) (s : Store)
      → entry j (incr now k s).0
        ≡ (if k == j then some (incremented (live now (entry k s))) else entry j s)
  pub count-incr :
      (now : ℕ) (k : String) (s : Store)
      → (incr now k s).1 ≡ (incremented (live now (entry k s))).count
  pub entry-pexpire :
      (now : ℕ) (k j : String) (ms : ℕ) (s : Store)
      → entry j (pexpire now k ms s)
        ≡ (if k == j then expiring now ms (live now (entry k s)) else entry j s)
  pub pttl_lem :
      (now : ℕ) (k : String) (s : Store) → pttl now k s ≡ remaining_time now (live now (entry k s))
  pub entry-del :
      (k j : String) (s : Store) → entry j (del k s) ≡ (if k == j then none else entry j s)
