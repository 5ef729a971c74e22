-- ===== src/Kernel/Bus.antt =====
-- kernel/bus.py: the in-process bus. A handler acts on a world of any type, and may raise. The latency
-- that the metrics record is the world's.
pub mod Replies
pub mod Registry
use trading_agents.Prelude.{
  ℕ, String, Bool, true, false, not, ◌&&◌, ◌||◌, Option, none, some, List, [], ◌∷◌, ◌++◌, ◌==◌,
  elem, if◌then◌else◌, fstring, string_eq, pair_eq,
}
use trading_agents.Prelude.Dict.{Dict, get, put}
use trading_agents.Kernel.Graph.Value.{Value, str}
use trading_agents.Kernel.Graph.Store.{Props}
use trading_agents.Kernel.Errors.{
  Outcome, returned, raised, AgentFault, FaultSink, Capture, completed, captured, contain,
}
use trading_agents.Kernel.Envelope.{
  MessageType, response, error, AgentMessage, Stamps, make_message,
}

abbrev pub MessageHandler : Type 0 → Type 0
MessageHandler W = Props → W → Outcome Props × W

abbrev pub EventHandler : Type 0 → Type 0
EventHandler W = Props → W → Outcome (Unit {0}) × W

abbrev pub Target : Type 0
Target = String × String

pub record InProcessBus (W : Type 0) : Type 0 where
  pub handlers : Dict Target (MessageHandler W)
  pub allowed : Dict Target (List String)
  pub subscribers : Dict String (List (EventHandler W))

abbrev pub empty_bus : {W : Type 0} → InProcessBus W
empty_bus = record { handlers = []; allowed = []; subscribers = [] }

-- `self._allowed.get(target, ())`
abbrev pub known_callers : Option (List String) → List String
known_callers none = []
known_callers (some callers) = callers

-- `caller_authorized`
abbrev pub is_unrestricted : List String → Bool
is_unrestricted [] = true
is_unrestricted (caller ∷ callers) = false

unfoldable pub caller_authorized : List String → String → Bool
caller_authorized allowed_callers sender =
    is_unrestricted allowed_callers || elem sender allowed_callers

module _ {W : Type 0} where
  unfoldable pub register :
      String → String → MessageHandler W → List String → InProcessBus W → InProcessBus W
  register recipient capability handler allowed_callers bus = record bus {
    handlers = put (recipient, capability) handler bus.handlers;
    allowed = put (recipient, capability) allowed_callers bus.allowed;
  }

  abbrev pub handlers_of : String → InProcessBus W → List (EventHandler W)
  handlers_of topic bus = elim (get topic bus.subscribers) [ none ↦ [] | some hs ↦ hs ]

  unfoldable pub subscribe : String → EventHandler W → InProcessBus W → InProcessBus W
  subscribe topic handler bus = record bus {
    subscribers = put topic (handlers_of topic bus ++ handler ∷ []) bus.subscribers;
  }

  -- The loop of `publish`, which the first exception ends.
  unfoldable pub deliver : List (EventHandler W) → Props → W → Outcome (Unit {0}) × W
  deliver [] event w = (returned tt, w)
  deliver (handler ∷ handlers) event w =
      let (outcome, w') = handler event w in
      elim outcome [ returned done ↦ deliver handlers event w' | raised exc ↦ (raised exc, w') ]

  unfoldable pub publish : InProcessBus W → String → Props → W → Outcome (Unit {0}) × W
  unfolding deliver
  publish bus topic event w = deliver (handlers_of topic bus) event w

-- What a bus runs with: the sink, the metrics and what new envelopes need.
pub record Runtime (W : Type 0) : Type 0 where
  pub strip : String → String
  pub stamps : Stamps W
  pub sink : FaultSink W
  pub record_request : String → String → Bool → W → W

abbrev pub dotted : AgentMessage → String
dotted m = fstring (m.recipient ∷ "." ∷ m.capability ∷ [])

module _ {W : Type 0} (rt : Runtime W) (m : AgentMessage) where
  -- The reply, and the metric that is recorded whatever it is.
  unfoldable pub reply : Bool → MessageType → Props → W → Outcome AgentMessage × W
  reply ok message_type payload w =
      let (message, w') =
        make_message rt.strip rt.stamps m.recipient m.sender message_type m.capability payload
          (some m.id) w in
      (message, rt.record_request m.recipient m.capability ok w')

  -- `_error_message`
  unfoldable pub error_message : String → String → W → Outcome AgentMessage × W
  unfolding reply
  error_message error_type text =
      reply false error (("error_type", str error_type) ∷ ("message", str text) ∷ [])

  -- The end of `request`, after the handler.
  unfoldable pub settle : Capture Props × W → Outcome AgentMessage × W
  unfolding error_message reply
  settle (completed payload, w) = reply true response payload w
  settle (captured fault, w) = error_message fault.error_type fault.message w

  -- `request`, for what the bus holds of the target.
  unfoldable pub answer : Option (MessageHandler W) → List String → W → Outcome AgentMessage × W
  unfolding error_message settle
  answer none allowed w =
      error_message "UnknownCapability" (fstring ("No handler registered for " ∷ dotted m ∷ [])) w
  answer (some handler) allowed w =
      if not (caller_authorized allowed m.sender)
      then error_message "Unauthorized"
          (fstring (m.sender ∷ " is not an authorized caller of " ∷ dotted m ∷ [])) w
      else settle
          (contain rt.sink m.recipient "kernel.bus" (some m.capability) (handler m.payload w))

  abbrev pub allowed_for : InProcessBus W → List String
  allowed_for bus = known_callers (get (m.recipient, m.capability) bus.allowed)

  unfoldable pub request : InProcessBus W → W → Outcome AgentMessage × W
  unfolding answer
  request bus w = answer (get (m.recipient, m.capability) bus.handlers) (allowed_for bus) w
