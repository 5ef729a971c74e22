-- ===== src/Kernel/ServeLoop.antt =====
-- kernel/serve_loop.py: the inbox of requests, one round of answers, and the loop around it. The
-- transport is a record of operations on a world of any type, and a reply may raise; LocalRequestConsumer
-- is the one of the source. The signal handler that the loop may install is not modelled.
pub mod Answered
use trading_agents.Prelude.{
  ℕ, zero, suc, ◌+◌, ◌==◌, String, Bool, true, false, Option, none, some, List, [], ◌∷◌, ◌++◌,
  length, if◌then◌else◌, nat_eq,
}
use trading_agents.Kernel.Errors.{Outcome, returned, raised, Exception, FaultSink, Capture, contain}
use trading_agents.Kernel.Envelope.{AgentMessage}
use trading_agents.Kernel.Bus.{InProcessBus, Runtime, request}
use trading_agents.Kernel.Stop.{Step, end_loop}

pub record RequestConsumer (W : Type 0) : Type 0 where
  pub poll : W → List AgentMessage × W
  pub reply : AgentMessage → W → Outcome (Unit {0}) × W

-- The inbox and the replies of `LocalRequestConsumer`.
pub record LocalRequestConsumer : Type 0 where
  pub inbox : List AgentMessage
  pub replies : List AgentMessage

unfoldable pub submit : AgentMessage → LocalRequestConsumer → LocalRequestConsumer
submit message c = record c { inbox = c.inbox ++ message ∷ [] }

unfoldable pub local_poll : LocalRequestConsumer → List AgentMessage × LocalRequestConsumer
local_poll c = (c.inbox, record c { inbox = [] })

unfoldable pub local_reply : AgentMessage → LocalRequestConsumer → LocalRequestConsumer
local_reply message c = record c { replies = c.replies ++ message ∷ [] }

-- The local inbox, beside the world of the handlers.
unfoldable pub local : {V : Type 0} → RequestConsumer (LocalRequestConsumer × V)
unfolding local_poll local_reply
local = record {
  poll = λ w. ((local_poll w.0).0, ((local_poll w.0).1, w.1));
  reply = λ r w. (returned tt, (local_reply r w.0, w.1));
}

module _ {W : Type 0} (consumer : RequestConsumer W) (rt : Runtime W) (bus : InProcessBus W)
    (sink : FaultSink W) where
  -- The reply, inside its boundary. `request` itself is outside of it.
  unfoldable pub respond : AgentMessage → Outcome AgentMessage × W → Outcome (Unit {0}) × W
  respond m (raised exc, w) = (raised exc, w)
  respond m (returned response, w) =
      let (kept, w') =
        contain sink m.recipient "kernel.serve_loop" (some m.capability)
          (consumer.reply response w) in
      (returned tt, w')

  -- `for request in requests:`
  unfoldable pub answer_all : List AgentMessage → W → Outcome (Unit {0}) × W
  unfolding respond
  answer_all [] w = (returned tt, w)
  answer_all (m ∷ requests) w =
      let (outcome, w') = respond m (request rt m bus w) in
      elim outcome [ raised exc ↦ (raised exc, w') | returned done ↦ answer_all requests w' ]

  unfoldable pub serve_once : W → Outcome ℕ × W
  unfolding answer_all
  serve_once w =
      let (requests, w1) = consumer.poll w in
      let (outcome, w2) = answer_all requests w1 in
      elim outcome [
        | raised exc ↦ (raised exc, w2)
        | returned done ↦ (returned (length requests), w2)
      ]

  -- `stopping.requested`, `stopping.wait` and the closing steps.
  pub record Stopping : Type 0 where
    pub requested : W → Bool × W
    pub wait : ℕ → W → W
    pub closing : List (Step W)

  -- What the loop returns, with the exit status that `end_loop` raises, if any; `none` out of fuel.
  unfoldable pub serve_loop : Stopping → ℕ → ℕ → ℕ → W → Option (Outcome (ℕ × Option ℕ) × W)
  unfolding serve_once
  serve_loop stopping poll_interval zero served w = none
  serve_loop stopping poll_interval (suc fuel) served w =
      let (stop, w1) = stopping.requested w in
      let (outcome, w2) = serve_once w1 in
      let (status, w3) = end_loop stopping.closing w1 in
      elim stop [
        | true ↦ some (returned (served, status), w3)
        | false ↦ elim outcome [
          | raised exc ↦ some (raised exc, w2)
          | returned count ↦
              serve_loop stopping poll_interval fuel (served + count)
                (if count == 0 then stopping.wait poll_interval w2 else w2)
        ]
      ]
