-- ===== src/Execution/StageFlow/Flow.antt =====
-- agents/execution/stage_flow.py `promote_stage`, with the tests of domain/stage_gate.py. `moment` is the
-- text of the clock at the write of a transition.
use trading_agents.Prelude.{
  String, Bool, true, false, not, ◌&&◌, ltb, none, some, List, [], ◌∷◌, length, filter,
  if◌then◌else◌, fstring,
}
use trading_agents.Kernel.Graph.Store.{
  Node, Store, Result, ok, raised, list_nodes, merge_node, has_text,
}
use trading_agents.Kernel.Errors.{Exception, Outcome, returned}
use trading_agents.Kernel.Errors as Errors
use trading_agents.Kernel.Envelope.{MessageType, AgentMessage, make_message}
use trading_agents.Kernel.Bus.{InProcessBus, Runtime, request}
use trading_agents.Execution.Submission.Submit.{Environment, current_stage_from_graph}
use trading_agents.Execution.StageFlow.{
  is_valid_promotion, is_valid_demotion, StageEvidence, ExecutionSettings, PromoteStageRequest,
  PromoteStageResult, result_of, subject, flag_resolved, transition_key, transition_props,
  flag_props,
}

module _ (env : Environment) {R : Type 0} (avg_approval_rate : List Node → R)
    (is_below : R → R → Bool) (two_digits : R → String) (settings : ExecutionSettings R) where
  unfoldable pub collect_stage_evidence : Store → StageEvidence R
  unfolding list_nodes
  collect_stage_evidence graph = record {
    snapshot_count = length (list_nodes "Snapshot" graph);
    avg_approval_rate = avg_approval_rate (list_nodes "Snapshot" graph);
    critical_fault_count =
        length
          (filter (λ fault. has_text "severity" "critical" fault.props) (list_nodes "Fault" graph));
  }

  unfoldable pub check_promotion_allowed : StageEvidence R → Bool × String
  check_promotion_allowed evidence =
      if ltb evidence.snapshot_count settings.min_promotion_runs
      then (
        false,
        fstring (
            "need "
            ∷ env.number settings.min_promotion_runs
            ∷ " runs; have "
            ∷ env.number evidence.snapshot_count
            ∷ []),
      )
      else if is_below evidence.avg_approval_rate settings.min_approval_rate
      then (
        false,
        fstring (
            "approval_rate "
            ∷ two_digits evidence.avg_approval_rate
            ∷ " below "
            ∷ two_digits settings.min_approval_rate
            ∷ []),
      )
      else if ltb 0 evidence.critical_fault_count
      then (
        false,
        fstring (env.number evidence.critical_fault_count ∷ " critical fault(s) unresolved" ∷ []),
      )
      else (true, "evidence gate passed")

  module _ (rt : Runtime Store) (bus : InProcessBus Store) (moment : String)
      (asked : PromoteStageRequest) where
    abbrev pub transitioned :
        String → String → Result Node × Store → Outcome PromoteStageResult × Store
    transitioned current text (ok node, graph) =
        (returned (result_of true current asked.target_stage text (some node)), graph)
    transitioned current text (raised e, graph) = (Errors.raised (env.graph_exception e), graph)

    -- `_transition`, with `write_stage_transition`.
    unfoldable pub transition : String → String → Store → Outcome PromoteStageResult × Store
    transition current text graph = transitioned current text (
        merge_node "StageTransition" (transition_key asked.target_stage moment)
          (transition_props current asked.target_stage asked.reason moment) 1 graph)

    abbrev pub refused : String → String → PromoteStageResult
    refused current text = result_of false current current text none

    abbrev pub after_reply :
        String → Outcome AgentMessage × Store → Outcome PromoteStageResult × Store
    after_reply current (Errors.raised exc, graph) = (Errors.raised exc, graph)
    after_reply current (returned reply, graph) = (
      returned (
          refused current (
            fstring (
              "confirmation required - approve stage:promote:" ∷ asked.target_stage ∷ " to proceed"
              ∷ []))),
      graph,
    )

    -- `_request_confirmation`, and the result after it.
    unfoldable pub confirm_with :
        String → Outcome AgentMessage × Store → Outcome PromoteStageResult × Store
    unfolding request
    confirm_with current (Errors.raised exc, graph) = (Errors.raised exc, graph)
    confirm_with current (returned message, graph) =
        after_reply current (request rt message bus graph)

    unfoldable pub weighed : String → Bool × String → Store → Outcome PromoteStageResult × Store
    unfolding confirm_with make_message
    weighed current (false, text) graph = (returned (refused current text), graph)
    weighed current (true, text) graph = confirm_with current (
        make_message rt.strip rt.stamps "execution" "supervisor" MessageType.request
          "flag_for_human" (flag_props current asked.target_stage) none graph)

    -- `promote_stage`, from the current stage.
    unfoldable pub promote_from : String → Store → Outcome PromoteStageResult × Store
    unfolding is_valid_demotion is_valid_promotion flag_resolved transition weighed
        collect_stage_evidence check_promotion_allowed
    promote_from current graph =
        if is_valid_demotion current asked.target_stage
        then transition current "demotion applied" graph
        else if not (is_valid_promotion current asked.target_stage)
        then (
          returned (
              refused current
                (fstring ("invalid transition " ∷ current ∷ "->" ∷ asked.target_stage ∷ []))),
          graph,
        )
        else if asked.confirmed && flag_resolved graph (subject asked.target_stage)
        then transition current "promotion confirmed and applied" graph
        else weighed current (check_promotion_allowed (collect_stage_evidence graph)) graph

    unfoldable pub promote_stage : Store → Outcome PromoteStageResult × Store
    unfolding promote_from current_stage_from_graph
    promote_stage graph = promote_from (current_stage_from_graph env graph settings.stage) graph
