-- ===== src/Gateway/Websocket/RateLimits.antt =====
-- The fixed window of `checkRateLimit`.
use backend_core_platform.Container.JsMap
use backend_core_platform.Container.JsMap.{get-set}
use backend_core_platform.Gateway.Websocket.{
  CoreGateway, RateWindow, check_rate_limit, max_messages_per_second,
}
use backend_core_platform.Base.{
  ℕ, suc, ◌+◌, ◌-◌, ◌≤◌, ◌<◌, min, String, ◌≡◌, ◌≢◌, ◌⊎◌, inl, inr, true, false, none, some, List,
  [], ◌∷◌, arith, eq_iff, eq_refl, leb, if◌then◌else◌, leb_false→lt, Bool-cases, Option-cases,
  length, All,
}

-- How many of a user's calls at the given times, in this order, are allowed.
unfoldable pub allowed_calls : String → List ℕ → CoreGateway → ℕ
allowed_calls u [] g = 0
allowed_calls u (now ∷ times) g =
    (if (check_rate_limit now u g).1 then 1 else 0)
    + allowed_calls u times (check_rate_limit now u g).0

-- No window counts more calls than are allowed in one.
abbrev pub IsBounded : CoreGateway → Type 0
IsBounded g =
    (u : String) (l : RateWindow)
    → JsMap.get u g.rate_limits ≡ some l
    → l.count ≤ max_messages_per_second

pub check_rate_limit-IsBounded :
    (now : ℕ) (u : String) (g : CoreGateway) → IsBounded g → IsBounded (check_rate_limit now u g).0
unfolding check_rate_limit
check_rate_limit-IsBounded now u g b v l h = elim (Option-cases (JsMap.get u g.rate_limits)) [
  | inl new ↦ ground (
    arith,
    b v l,
    eq_iff u v,
    get-set v u (record { count = 1; reset_at = now + 1000 }) g.rate_limits,
  )
  | inr (w, old) ↦ ground (
    arith,
    b v l,
    b u w old,
    eq_iff u v,
    get-set v u (record { count = 1; reset_at = now + 1000 }) g.rate_limits,
    get-set v u (record { count = w.count + 1; reset_at = w.reset_at }) g.rate_limits,
  )
]

pub check_rate_limit-registry :
    (now : ℕ) (u : String) (g : CoreGateway) → (check_rate_limit now u g).0.registry ≡ g.registry
unfolding check_rate_limit
check_rate_limit-registry now u g = ground arith

-- A call for one user changes no other user's window.
pub check_rate_limit_other :
    (now : ℕ) (u v : String) (g : CoreGateway)
    → u ≢ v
    → JsMap.get v (check_rate_limit now u g).0.rate_limits ≡ JsMap.get v g.rate_limits
unfolding check_rate_limit
check_rate_limit_other now u v g ne = elim (Option-cases (JsMap.get u g.rate_limits)) [
  | inl new ↦
      ground
        (arith, eq_iff u v, get-set v u (record { count = 1; reset_at = now + 1000 }) g.rate_limits)
  | inr (w, old) ↦ ground (
    arith,
    eq_iff u v,
    get-set v u (record { count = 1; reset_at = now + 1000 }) g.rate_limits,
    get-set v u (record { count = w.count + 1; reset_at = w.reset_at }) g.rate_limits,
  )
]

module _ (u : String) where
  -- One call inside an open window.
  call_in_window :
      (now : ℕ) (g : CoreGateway) (l : RateWindow)
      → JsMap.get u g.rate_limits ≡ some l
      → now ≤ l.reset_at
      → check_rate_limit now u g ≡ (
          if leb max_messages_per_second l.count then (g, false) else (
            record g {
              rate_limits =
                  JsMap.set u (record { count = l.count + 1; reset_at = l.reset_at }) g.rate_limits;
            },
            true,
          ))
  unfolding check_rate_limit
  call_in_window now g l e h = rw (e, check_rate_limit) (ground arith)

  call_opens_window :
      (now : ℕ) (g : CoreGateway)
      → (JsMap.get u g.rate_limits ≡ none)
        ⊎ ((l : RateWindow) × (JsMap.get u g.rate_limits ≡ some l) × (l.reset_at < now))
      → check_rate_limit now u g ≡ (
        record g {
          rate_limits = JsMap.set u (record { count = 1; reset_at = now + 1000 }) g.rate_limits;
        },
        true,
      )
  unfolding check_rate_limit
  call_opens_window now g (inl new) = rw (new, check_rate_limit)
  call_opens_window now g (inr (l, old, late)) = rw (old, check_rate_limit) (ground arith)

  -- Inside an open window as many calls pass as are left of it, and no more.
  pub allowed_calls_open :
      (times : List ℕ) (g : CoreGateway) (l : RateWindow)
      → JsMap.get u g.rate_limits ≡ some l
      → l.count ≤ max_messages_per_second
      → All (λ t. t ≤ l.reset_at) times
      → allowed_calls u times g ≡ min (length times) (max_messages_per_second - l.count)
  unfolding allowed_calls
  allowed_calls_open [] g l e b h = omega arith
  allowed_calls_open (now ∷ times) g l e b (h, hs) =
      elim (Bool-cases (leb max_messages_per_second l.count)) [
        | inl full ↦
            ground (arith, call_in_window now g l e h, full, allowed_calls_open times g l e b hs)
        | inr room ↦
            let l' : RateWindow = record { count = l.count + 1; reset_at = l.reset_at } in
            let g' : CoreGateway = record g { rate_limits = JsMap.set u l' g.rate_limits } in
            rw (call_in_window now g l e h) (
              rw room (
                omega (
                  arith,
                  leb_false→lt max_messages_per_second l.count room,
                  allowed_calls_open times g' l' (rw (get-set u u l' g.rate_limits, eq_refl u))
                      (omega (arith, leb_false→lt max_messages_per_second l.count room)) hs,
                )))
      ]

  -- The first call of a user after the window has run out, or with no window, opens one; of it and
  -- the calls that follow in that second exactly the first ten pass.
  pub allowed_calls_fresh :
      (now : ℕ) (times : List ℕ) (g : CoreGateway)
      → (JsMap.get u g.rate_limits ≡ none)
        ⊎ ((l : RateWindow) × (JsMap.get u g.rate_limits ≡ some l) × (l.reset_at < now))
      → All (λ t. t ≤ now + 1000) times
      → allowed_calls u (now ∷ times) g ≡ min (suc (length times)) max_messages_per_second
  unfolding allowed_calls
  allowed_calls_fresh now times g opens h =
      let l : RateWindow = record { count = 1; reset_at = now + 1000 } in
      let g' : CoreGateway = record g { rate_limits = JsMap.set u l g.rate_limits } in
      rw (call_opens_window now g opens) (
        omega (
          arith,
          allowed_calls_open times g' l (rw (get-set u u l g.rate_limits, eq_refl u)) (omega arith)
              h,
        ))
