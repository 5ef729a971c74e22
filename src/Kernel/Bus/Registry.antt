-- ===== src/Kernel/Bus/Registry.antt =====
-- The bus as the table of what was registered last (kernel/bus.py).
use trading_agents.Prelude.{
  ◌≡◌, refl, ap₂, String, Option, none, some, List, [], ◌∷◌, ◌==◌, if◌then◌else◌, Bool-cases, inl,
  inr, string_eq, pair_eq,
}
use trading_agents.Prelude.Dict.{get, get-put}
use trading_agents.Kernel.Envelope.{AgentMessage}
use trading_agents.Kernel.Bus.{
  Target, MessageHandler, InProcessBus, empty_bus, known_callers, register, Runtime, answer,
  request,
}

pub record Registration (W : Type 0) : Type 0 where
  pub recipient : String
  pub capability : String
  pub handler : MessageHandler W
  pub allowed_callers : List String

module _ {W : Type 0} where
  abbrev pub target_of : Registration W → Target
  target_of r = (r.recipient, r.capability)

  -- The calls of `register`, in their order.
  unfoldable pub register_all : List (Registration W) → InProcessBus W → InProcessBus W
  register_all [] bus = bus
  register_all (r ∷ rs) bus =
      register_all rs (register r.recipient r.capability r.handler r.allowed_callers bus)

  -- The last registration of a target, or what stood before.
  unfoldable pub last_for :
      Target → Option (Registration W) → List (Registration W) → Option (Registration W)
  last_for target found [] = found
  last_for target found (r ∷ rs) =
      last_for target (if target_of r == target then some r else found) rs

  abbrev pub handler_in : Option (Registration W) → Option (MessageHandler W)
  handler_in none = none
  handler_in (some r) = some r.handler

  abbrev pub callers_in : Option (Registration W) → List String
  callers_in none = []
  callers_in (some r) = r.allowed_callers

  abbrev callers_at : Target → InProcessBus W → List String
  callers_at target bus = known_callers (get target bus.allowed)

  -- The bus holds for a target what a registration says.
  abbrev Holds : Target → Option (Registration W) → InProcessBus W → Type 0
  Holds target found bus =
      (get target bus.handlers ≡ handler_in found) × (callers_at target bus ≡ callers_in found)

  register-Holds :
      (target : Target) (found : Option (Registration W)) (r : Registration W)
      (bus : InProcessBus W)
      → Holds target found bus
      → Holds target
          (if target_of r == target then some r else found)
          (register r.recipient r.capability r.handler r.allowed_callers bus)
  unfolding register
  register-Holds target found r bus h =
      let handlers = get-put (target_of r) target r.handler bus.handlers in
      let allowed = get-put (target_of r) target r.allowed_callers bus.allowed in
      elim (Bool-cases (target_of r == target)) [
        | inl same ↦ rw (handlers, allowed, same) (refl, refl)
        | inr other ↦ rw (handlers, allowed, other) h
      ]

  register_all-Holds :
      (target : Target) (found : Option (Registration W)) (rs : List (Registration W))
      (bus : InProcessBus W)
      → Holds target found bus
      → Holds target (last_for target found rs) (register_all rs bus)
  unfolding register_all last_for
  register_all-Holds target found [] bus h = h
  register_all-Holds target found (r ∷ rs) bus h =
      register_all-Holds target (if target_of r == target then some r else found) rs
        (register r.recipient r.capability r.handler r.allowed_callers bus)
        (register-Holds target found r bus h)

-- The bus refines the table of the last registrations: after any calls of `register` on an empty bus,
-- a request is answered by the handler, and for the callers, of the last registration of its target,
-- and as an unknown capability where there was none.
pub request-register_all :
    {W : Type 0} (rt : Runtime W) (m : AgentMessage) (rs : List (Registration W)) (w : W)
    → let found = last_for (m.recipient, m.capability) none rs in
      request rt m (register_all rs empty_bus) w
      ≡ answer rt m (handler_in found) (callers_in found) w
unfolding request get
request-register_all rt m rs w =
    let held = register_all-Holds (m.recipient, m.capability) none rs empty_bus (refl, refl) in
    ap₂ (λ handler callers. answer rt m handler callers w) held.0 held.1
