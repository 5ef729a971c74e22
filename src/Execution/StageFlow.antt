-- ===== src/Execution/StageFlow.antt =====
-- agents/execution/stage_flow.py, with domain/stage_gate.py and the transition of store.py. The average
-- of approval rates and its texts (floats) are parameters, as is Python's text of an int. The request for
-- a confirmation goes through the modelled bus, whose world is the graph.
pub mod Flow
pub mod Promotion
use trading_agents.Prelude.{
  ℕ, suc, ◌+◌, String, Bool, true, false, not, ◌&&◌, ◌==◌, ltb, Option, none, some, List, [], ◌∷◌,
  length, filter, if◌then◌else◌, fstring, string_eq, nat_eq,
}
use trading_agents.Prelude.Dict.{is_some}
use trading_agents.Kernel.Graph.Value.{Value, str}
use trading_agents.Kernel.Graph.Store.{
  Node, Props, Store, Error, Result, ok, raised, list_nodes, get_node, merge_node, has_text,
}
use trading_agents.Kernel.Errors.{Exception, Outcome, returned}
use trading_agents.Kernel.Errors as Errors
use trading_agents.Kernel.Envelope.{MessageType, AgentMessage, make_message}
use trading_agents.Kernel.Bus.{InProcessBus, Runtime, request}
use trading_agents.Execution.FillStore.{Provenance}

abbrev pub stage_order : List String
stage_order = "paper" ∷ "broker_shadow" ∷ "live_manual" ∷ "live_autopilot" ∷ []

-- `STAGE_ORDER.index`; a stage is always one of the order.
unfoldable pub index : String → List String → ℕ
index stage [] = 0
index stage (other ∷ rest) = let later = index stage rest in if other == stage then 0 else suc later

abbrev pub place : String → ℕ
unfolding index
place stage = index stage stage_order

unfoldable pub is_valid_promotion : String → String → Bool
unfolding place
is_valid_promotion from_stage to_stage =
    if to_stage == "live_autopilot" then false else place to_stage == place from_stage + 1

unfoldable pub is_valid_demotion : String → String → Bool
unfolding place
is_valid_demotion from_stage to_stage = ltb (place to_stage) (place from_stage)

pub record StageEvidence (R : Type 0) : Type 0 where
  pub snapshot_count : ℕ
  pub avg_approval_rate : R
  pub critical_fault_count : ℕ

-- The settings, with the rates of any type.
pub record ExecutionSettings (R : Type 0) : Type 0 where
  pub stage : String
  pub min_promotion_runs : ℕ
  pub min_approval_rate : R

pub record PromoteStageRequest : Type 0 where
  pub target_stage : String
  pub reason : String
  pub confirmed : Bool

pub record PromoteStageResult : Type 0 where
  pub accepted : Bool
  pub previous_stage : String
  pub current_stage : String
  pub reason : String
  pub provenance : Provenance

abbrev id_of : Option Node → Option String
id_of none = none
id_of (some node) = some (fstring (node.label ∷ ":" ∷ node.key ∷ []))

-- `_result`
abbrev pub result_of : Bool → String → String → String → Option Node → PromoteStageResult
result_of accepted previous current reason node = record {
  accepted = accepted;
  previous_stage = previous;
  current_stage = current;
  reason = reason;
  provenance = record {
    run_id = "stage-promotion";
    source_agent = "execution";
    graph_node_id = id_of node;
  };
}

abbrev pub subject : String → String
subject target = fstring ("stage_promote:" ∷ target ∷ [])

-- `_flag_resolved`
unfoldable pub flag_resolved : Store → String → Bool
unfolding get_node
flag_resolved graph subject_ref =
    is_some
      (get_node "FlagResolution" (fstring ("resolution:flag:" ∷ subject_ref ∷ ":info" ∷ [])) graph)

-- What `write_stage_transition` writes at a moment.
abbrev pub transition_key : String → String → String
transition_key to_stage moment = fstring ("stage:" ∷ to_stage ∷ ":" ∷ moment ∷ [])

abbrev pub transition_props : String → String → String → String → Props
transition_props from_stage to_stage reason moment =
    ("from_stage", str from_stage)
    ∷ ("to_stage", str to_stage)
    ∷ ("reason", str reason)
    ∷ ("transitioned_at", str moment)
    ∷ []

abbrev pub flag_props : String → String → Props
flag_props current target =
    ("subject_ref", str (subject target))
    ∷ ("severity", str "info")
    ∷ ("reason", str (fstring ("Promote execution stage " ∷ current ∷ "->" ∷ target ∷ [])))
    ∷ []
