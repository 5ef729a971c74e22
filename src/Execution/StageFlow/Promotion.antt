-- ===== src/Execution/StageFlow/Promotion.antt =====
-- What a stage transition needs (agents/execution/stage_flow.py, domain/stage_gate.py).
use trading_agents.Prelude.{
  ◌+◌, ◌≡◌, ◌<◌, ◌⊎◌, String, Bool, true, false, ◌==◌, List, string_eq, nat_eq,
}
use trading_agents.Kernel.Graph.Store.{Node, Store, ok, raised, merge_node}
use trading_agents.Kernel.Errors.{Outcome, returned}
use trading_agents.Kernel.Errors as Errors
use trading_agents.Kernel.Bus.{InProcessBus, Runtime}
use trading_agents.Execution.Submission.Submit.{Environment}
use trading_agents.Execution.StageFlow.{
  place, ExecutionSettings, PromoteStageRequest, PromoteStageResult, subject, flag_resolved,
  transition_key, transition_props,
}

module _ (env : Environment) {R : Type 0} (avg_approval_rate : List Node → R)
    (is_below : R → R → Bool) (two_digits : R → String) (settings : ExecutionSettings R)
    (rt : Runtime Store) (bus : InProcessBus Store) (moment : String)
    (asked : PromoteStageRequest) where
  -- Any way down; or one step up, never to the autopilot, confirmed and with its flag resolved.
  abbrev pub IsPermitted : String → Store → Type 0
  IsPermitted current graph =
      (place asked.target_stage < place current)
      ⊎ (((asked.target_stage == "live_autopilot") ≡ false)
          × (place asked.target_stage ≡ place current + 1)
          × (asked.confirmed ≡ true)
          × (flag_resolved graph (subject asked.target_stage) ≡ true))

  -- The write of the transition that was accepted.
  abbrev pub Records : String → Store → Store → Type 0
  Records current graph after =
      (node : Node) × (merge_node "StageTransition" (transition_key asked.target_stage moment)
          (transition_props current asked.target_stage asked.reason moment) 1 graph
        ≡ (ok node, after))

  -- A result is accepted where the transition is permitted and recorded, and refused at the stage that
  -- was where it is not permitted.
  abbrev pub Promotes : String → Store → Outcome PromoteStageResult × Store → Type 0
  Promotes current graph (Errors.raised exc, after) = Unit
  Promotes current graph (returned result, after) =
      ((result.accepted ≡ true)
        × (result.current_stage ≡ asked.target_stage)
        × IsPermitted current graph
        × Records current graph after)
      ⊎ ((result.accepted ≡ false)
          × (result.current_stage ≡ current)
          × (IsPermitted current graph → ⊥))
