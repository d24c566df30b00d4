-- ===== src/Common/JetStream/Acknowledging.antt =====
-- Which messages are acknowledged, and how often.
use backend_core_platform.Common.Errors.{Result, ok, throws}
use backend_core_platform.Common.JetStream.{
  Verdict, acks, naks, Arrival, Round, fetches, breaks_off, verdict, consume_batch, consume_loop,
}
use backend_core_platform.Base.{
  String, ◌≡◌, refl, sym, Bool, true, false, List, [], ◌∷◌, ◌++◌, if◌then◌else◌,
}

-- The messages of a batch up to the first that comes after the stop.
abbrev pub taken : List Arrival → List String
taken [] = []
taken ((aborted, msg) ∷ rest) = if aborted then [] else msg ∷ taken rest

-- The messages of the rounds up to the first that starts after the stop, in their order.
abbrev pub all_taken : List (Bool × Round) → List String
all_taken [] = []
all_taken ((aborted, breaks_off) ∷ rounds) = if aborted then [] else all_taken rounds
all_taken ((aborted, fetches batch) ∷ rounds) =
    if aborted then [] else taken batch ++ all_taken rounds

-- A message is acknowledged where its handler returns, and sent back where it throws.
abbrev pub said : String → Result Bool → Verdict
said msg (ok b) = acks msg
said msg (throws t) = naks msg

verdict-said : (msg : String) (out : Result Bool) → verdict msg out ≡ said msg out
verdict-said msg (ok b) = refl
verdict-said msg (throws t) = refl

module _ {State : Type 0} (handle : String → State → State × Result Bool) where
  -- Each message handed to the handler once, in this order, with what is said of it.
  abbrev pub handled : List String → State → State × List Verdict
  handled [] s = (s, [])
  handled (msg ∷ rest) s =
      let (s', out) = handle msg s in
      let (s'', verdicts) = handled rest s' in (s'', said msg out ∷ verdicts)

  consume_batch-handled :
      (batch : List Arrival) (s : State) → consume_batch handle batch s ≡ handled (taken batch) s
  unfolding consume_batch
  consume_batch-handled [] s = refl
  consume_batch-handled ((true, msg) ∷ rest) s = refl
  consume_batch-handled ((false, msg) ∷ rest) s =
      rw (consume_batch-handled rest (handle msg s).0) (rw (verdict-said msg (handle msg s).1) refl)

  handled-append :
      (xs ys : List String) (s : State)
      → handled (xs ++ ys) s
        ≡ ((handled ys (handled xs s).0).0, (handled xs s).1 ++ (handled ys (handled xs s).0).1)
  handled-append [] ys s = refl
  handled-append (x ∷ xs) ys s = rw (handled-append xs ys (handle x s).0) refl

  -- Whatever is fetched, however often fetching fails and whenever the consumer is stopped: the loop
  -- does what handing every message that comes before the stop to the handler once, in their order,
  -- does; each of them gets exactly one verdict, and that is an acknowledgement exactly where the
  -- handler does not throw.
  pub consume_loop-handled :
      (rounds : List (Bool × Round)) (s : State)
      → consume_loop handle rounds s ≡ handled (all_taken rounds) s
  unfolding consume_loop
  consume_loop-handled [] s = refl
  consume_loop-handled ((true, breaks_off) ∷ rounds) s = refl
  consume_loop-handled ((false, breaks_off) ∷ rounds) s = consume_loop-handled rounds s
  consume_loop-handled ((true, fetches batch) ∷ rounds) s = refl
  consume_loop-handled ((false, fetches batch) ∷ rounds) s = rw (consume_batch-handled batch s) (
      rw (consume_loop-handled rounds (handled (taken batch) s).0)
        (sym (handled-append (taken batch) (all_taken rounds) s)))
