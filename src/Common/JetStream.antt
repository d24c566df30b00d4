-- ===== src/Common/JetStream.antt =====
-- packages/common/src/nats/base-jetstream-consumer.ts: the loop that fetches messages, hands each to
-- a handler and acknowledges it. What is fetched is a schedule; logging is left out.
pub mod Acknowledging
pub mod Examples
use backend_core_platform.Common.Errors.{Result, ok, throws}
use backend_core_platform.Base.{String, Bool, List, [], ◌∷◌, ◌++◌, if◌then◌else◌}

-- `msg.ack()` and `msg.nak()` of a message, by its text.
pub data Verdict : Type 0 where
  acks : String → Verdict
  naks : String → Verdict

-- A message, with the value of `consumeAborted` when it comes.
abbrev pub Arrival : Type 0
Arrival = Bool × String

-- One turn of the outer loop: what `fetch` brings, or an error of it.
pub data Round : Type 0 where
  fetches : List Arrival → Round
  breaks_off : Round

abbrev pub verdict : String → Result Bool → Verdict
verdict msg (ok b) = acks msg
verdict msg (throws t) = naks msg

module _ {State : Type 0} (handle : String → State → State × Result Bool) where
  -- The state after a batch, and its verdicts in their order.
  unfoldable pub consume_batch : List Arrival → State → State × List Verdict
  consume_batch [] s = (s, [])
  consume_batch ((aborted, msg) ∷ rest) s =
      let (s', out) = handle msg s in
      let (s'', verdicts) = consume_batch rest s' in
      if aborted then (s, []) else (s'', verdict msg out ∷ verdicts)

  -- Each round with the value of `consumeAborted` at its start.
  unfoldable pub consume_loop : List (Bool × Round) → State → State × List Verdict
  unfolding consume_batch
  consume_loop [] s = (s, [])
  consume_loop ((aborted, breaks_off) ∷ rounds) s =
      let rest = consume_loop rounds s in if aborted then (s, []) else rest
  consume_loop ((aborted, fetches batch) ∷ rounds) s =
      let (s', verdicts) = consume_batch batch s in
      let (s'', later) = consume_loop rounds s' in
      if aborted then (s, []) else (s'', verdicts ++ later)
