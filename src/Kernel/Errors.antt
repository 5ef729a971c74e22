-- ===== src/Kernel/Errors.antt =====
-- kernel/errors.py: faults, the sink that they go to, and the boundary that does not reraise. An
-- exception is what the boundary reads of it. A moment is a number of microseconds.
use trading_agents.Prelude.{ℕ, String, Option, none, List, [], ◌++◌, ◌∷◌}
use trading_agents.Kernel.Graph.Store.{Props}

pub data Severity : Type 0 where
  info warning error critical : Severity

pub record Exception : Type 0 where
  pub type_name : String
  pub text : String
  pub traceback : Option String

-- How a call ends.
pub data Outcome (A : Type 0) : Type 0 where
  returned : A → Outcome A
  raised : Exception → Outcome A

pub record AgentFault : Type 0 where
  pub occurred_at : ℕ
  pub source_agent : String
  pub source_module : String
  pub capability : Option String
  pub severity : Severity
  pub error_type : String
  pub message : String
  pub traceback : Option String
  pub correlation_id : Option String
  pub context : Props

-- The sink and the clock of a boundary.
pub record FaultSink (W : Type 0) : Type 0 where
  pub submit : AgentFault → W → W
  pub clock : W → ℕ × W

-- `CollectingFaultSink.submit`
unfoldable pub collect : AgentFault → List AgentFault → List AgentFault
collect fault faults = faults ++ fault ∷ []

-- `fault_from_exception` with the arguments that a boundary gives.
unfoldable pub fault_from_exception : Exception → String → String → Option String → ℕ → AgentFault
fault_from_exception exc agent module_name capability now = record {
  occurred_at = now;
  source_agent = agent;
  source_module = module_name;
  capability = capability;
  severity = error;
  error_type = exc.type_name;
  message = exc.text;
  traceback = exc.traceback;
  correlation_id = none;
  context = [];
}

-- The fault that a boundary captures, or what the block returned.
pub data Capture (A : Type 0) : Type 0 where
  completed : A → Capture A
  captured : AgentFault → Capture A

module _ {A W : Type 0} (sink : FaultSink W) (agent module_name : String)
    (capability : Option String) where
  -- `with fault_boundary(sink, ..., reraise=False)` around a block that ended so.
  unfoldable pub contain : Outcome A × W → Capture A × W
  contain (returned a, w) = (completed a, w)
  contain (raised exc, w) =
      let (now, w1) = sink.clock w in
      let fault = fault_from_exception exc agent module_name capability now in
      (captured fault, sink.submit fault w1)
