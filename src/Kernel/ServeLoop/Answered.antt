-- ===== src/Kernel/ServeLoop/Answered.antt =====
-- Every request that was taken is answered (kernel/serve_loop.py).
use trading_agents.Prelude.{◌≡◌, refl, ◌∙◌, List, [], ◌∷◌, length, All, arith, some}
use trading_agents.Kernel.Errors.{Outcome, returned, raised, FaultSink, contain}
use trading_agents.Kernel.Envelope.{AgentMessage}
use trading_agents.Kernel.Bus.{InProcessBus, Runtime, request}
use trading_agents.Kernel.Bus.Replies.{IsValid, Answers, Replies, request-Replies}
use trading_agents.Kernel.ServeLoop.{RequestConsumer, respond, answer_all, serve_once}

module _ {W : Type 0} (consumer : RequestConsumer W) (rt : Runtime W) (bus : InProcessBus W)
    (sink : FaultSink W) where
  -- The world after a reply was handed over, whether that raised or not.
  abbrev after_reply : AgentMessage → AgentMessage → W → W
  after_reply m r w =
      (contain sink m.recipient "kernel.serve_loop" (some m.capability) (consumer.reply r w)).1

  -- One world leads to the other by answering the requests in their order: each has one valid answer,
  -- which is handed to the consumer.
  abbrev pub Served : List AgentMessage → W → W → Type 0
  Served [] w w' = w' ≡ w
  Served (m ∷ ms) w w' =
      (r : AgentMessage) × (w1 : W) × (request rt m bus w ≡ (returned r, w1))
      × IsValid rt.strip r
      × Answers m r
      × Served ms (after_reply m r w1) w'

  -- The answer to one request.
  answered :
      (m : AgentMessage) (out : Outcome AgentMessage × W)
      → Replies rt m out
      → (r : AgentMessage) × (w1 : W) × (out ≡ (returned r, w1))
        × IsValid rt.strip r
        × Answers m r
        × (respond consumer rt bus sink m out ≡ (returned tt, after_reply m r w1))
  unfolding respond
  answered m (returned r, w1) (valid, answers) = (r, w1, refl, valid, answers, refl)
  answered m (raised exc, w1) h = absurd h

  answer_next :
      (m : AgentMessage) (ms : List AgentMessage) (w w1 : W)
      → respond consumer rt bus sink m (request rt m bus w) ≡ (returned tt, w1)
      → answer_all consumer rt bus sink (m ∷ ms) w ≡ answer_all consumer rt bus sink ms w1
  unfolding answer_all
  answer_next m ms w w1 h = ground (arith, h)

  serve_polled :
      (w w' : W)
      → answer_all consumer rt bus sink (consumer.poll w).0 (consumer.poll w).1 ≡ (returned tt, w')
      → serve_once consumer rt bus sink w ≡ (returned (length (consumer.poll w).0), w')
  unfolding serve_once
  serve_polled w w' h = ground (arith, h)

  answer_all-Served :
      (ms : List AgentMessage) (w : W)
      → All (IsValid rt.strip) ms
      → (w' : W) × (answer_all consumer rt bus sink ms w ≡ (returned tt, w')) × Served ms w w'
  unfolding answer_all
  answer_all-Served [] w valid = (w, refl, refl)
  answer_all-Served (m ∷ ms) w valid =
      let (r, w1, asked, is_valid, answers, responded) =
        answered m (request rt m bus w) (request-Replies rt m valid.0 bus w) in
      let (w', all, served) = answer_all-Served ms (after_reply m r w1) valid.1 in
      (
        w',
        answer_next m ms w (after_reply m r w1) responded ∙ all,
        (r, w1, asked, is_valid, answers, served),
      )

  -- Where the requests that are polled are valid messages, a round of serving returns their number, and
  -- each of them has had one valid answer that was handed to the consumer, in their order, whatever the
  -- handlers and the transport raised.
  pub serve_once-Served :
      (w : W)
      → All (IsValid rt.strip) (consumer.poll w).0
      → (w' : W) × (serve_once consumer rt bus sink w ≡ (returned (length (consumer.poll w).0), w'))
        × Served (consumer.poll w).0 (consumer.poll w).1 w'
  unfolding serve_once
  serve_once-Served w valid =
      let (w', all, served) = answer_all-Served (consumer.poll w).0 (consumer.poll w).1 valid in
      (w', serve_polled w w' all, served)
