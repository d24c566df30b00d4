-- ===== src/Common/JetStream/Examples.antt =====
-- A consumer that is stopped in its second round; the handler takes every message but one.
use backend_core_platform.Common.Errors.{Result, ok, throws, error}
use backend_core_platform.Common.JetStream.{acks, naks, Round, fetches, breaks_off, consume_loop}
use backend_core_platform.Common.JetStream.Acknowledging.{handled, consume_loop-handled}
use backend_core_platform.Base.{
  ℕ, suc, String, ◌≡◌, refl, Bool, true, false, List, [], ◌∷◌, ◌==◌, Eq_ℕ, Eq_String, if◌then◌else◌,
}

abbrev handle : String → ℕ → ℕ × Result Bool
handle msg n = if msg == "bad" then (n, throws (error "no")) else (suc n, ok true)

abbrev schedule : List (Bool × Round)
schedule =
    (false, fetches ((false, "a") ∷ (false, "bad") ∷ []))
    ∷ (false, breaks_off)
    ∷ (false, fetches ((false, "b") ∷ (true, "c") ∷ []))
    ∷ (true, fetches ((true, "d") ∷ []))
    ∷ []

two_taken : consume_loop handle schedule 0 ≡ (2, acks "a" ∷ naks "bad" ∷ acks "b" ∷ [])
unfolding consume_loop
two_taken = refl

consume_loop-handled_example :
    consume_loop handle schedule 0 ≡ handled handle ("a" ∷ "bad" ∷ "b" ∷ []) 0
consume_loop-handled_example = consume_loop-handled handle schedule 0
