-- ===== src/Supervisor/Gate.antt =====
-- agents/supervisor/domain/gate.py, with `rejected` and `provenance` of
-- agents/supervisor/result.py: the gate that an intent passes before it is routed. The bus is what
-- the two requests of the gate come back as.
pub mod Routing
use trading_agents.Prelude.{
  ℕ, String, Bool, true, false, not, ◌&&◌, Option, none, some, List, [], ◌∷◌, ◌==◌, elem,
  if◌then◌else◌, fstring, string_eq,
}
use trading_agents.Prelude.Dict.{Dict, get}
use trading_agents.Kernel.Graph.Value.{Value}
use trading_agents.Kernel.Graph.Store.{Node, Error, key_error, Store, Result, ok, raised}
use trading_agents.Supervisor.Flags.{
  and_then, message_key, write_message, write_flag, resolve_flag, resolve_flag_by_subject,
}
use trading_agents.Supervisor.Intent.{
  IntentFamily, status, explain, approve, reject, modify, run, mode, stage, pause, resume,
  Provenance, TypedIntent, DispatchResult, family_name, is_param, is_family, is_hard_no, RouteSpec,
  capability_matrix, routed_to, not_available_reason,
}

pub data StageReply : Type 0 where
  stage_error : String → StageReply
  stage_result : Bool → String → Provenance → StageReply

pub data ResumeReply : Type 0 where
  resume_error : String → ResumeReply
  resume_placed : String → String → ResumeReply

pub record Bus : Type 0 where
  pub promote_stage : String → String → Bool → Store → StageReply × Store
  pub resume_run : String → String → Store → ResumeReply × Store

abbrev pub rejected : String → String → DispatchResult
rejected run_id reason = record {
  accepted = false;
  routed_to = none;
  rejection = some reason;
  provenance = record { run_id = run_id; source_agent = "supervisor"; graph_node_id = none };
}

abbrev pub accepted_by : Option String → Provenance → DispatchResult
accepted_by target provenance = record {
  accepted = true;
  routed_to = target;
  rejection = none;
  provenance = provenance;
}

abbrev pub run_id_of : TypedIntent → String
run_id_of intent = intent.provenance.run_id

-- The `""` of a missing parameter.
abbrev pub text_or_empty : Option String → String
text_or_empty none = ""
text_or_empty (some value) = value

-- `parameters.get(name) or parameters.get(other, "")`
abbrev pub param_or : String → String → TypedIntent → String
param_or name other intent =
    let default = text_or_empty (get other intent.parameters) in
    elim (get name intent.parameters) [
      | none ↦ default
      | some value ↦ if value == "" then default else value
    ]

abbrev pub needs_confirmation : TypedIntent → Bool
needs_confirmation intent = intent.requires_confirmation && not (is_param "confirmed" "true" intent)

abbrev pub resume_stages : List String
resume_stages =
    "position_sync" ∷ "provider" ∷ "scanner" ∷ "analyst" ∷ "pm" ∷ "execution" ∷ "monitor"
    ∷ "reporter" ∷ []

abbrev broker_resume_stages : List String
broker_resume_stages =
    "position_sync" ∷ "provider" ∷ "scanner" ∷ "analyst" ∷ "pm" ∷ "execution" ∷ []

abbrev pub valid_stages : List String
valid_stages = "paper" ∷ "broker_shadow" ∷ "live_manual" ∷ "live_autopilot" ∷ []

abbrev pub resume_stage : TypedIntent → String
resume_stage = param_or "from_stage" "stage"

abbrev resume_base : String
resume_base = "Confirm the typed resume intent to create a superseding child run."

unfoldable pub confirmation_reason : TypedIntent → String
confirmation_reason intent =
    if is_family intent.family resume && elem (resume_stage intent) broker_resume_stages
    then fstring (
        resume_base ∷ " Broker consequence: "
        ∷ "re-running from this stage can submit new orders at the broker" ∷ "." ∷ [])
    else if is_family intent.family resume
    then resume_base
    else "confirmation required - resubmit with confirmed=true"

module _ (python_str : Value → String) (now : String) (bus : Option Bus)
    (intent : TypedIntent) where
  abbrev pub refuse : String → Store → Result DispatchResult × Store
  refuse reason s = (ok (rejected (run_id_of intent) reason), s)

  abbrev pub stage_answer : StageReply × Store → Result DispatchResult × Store
  stage_answer (stage_error message, s) = refuse message s
  stage_answer (stage_result accepted reason provenance, s) =
      if accepted
      then (ok (accepted_by (some "execution.promote_stage") provenance), s)
      else refuse reason s

  unfoldable pub dispatch_stage : Store → Result DispatchResult × Store
  dispatch_stage s =
      let target = param_or "stage" "target" intent in
      let reason = fstring ("operator stage request via " ∷ intent.provenance.source_agent ∷ []) in
      elim bus [
        | none ↦ refuse "stage dispatch requires bus context" s
        | some b ↦
            if elem target valid_stages
            then stage_answer (b.promote_stage target reason (is_param "confirmed" "true" intent) s)
            else refuse (fstring ("invalid stage target: " ∷ target ∷ [])) s
      ]

  -- The message that a routed intent leaves.
  abbrev pub note_dispatched : Store → Result Node × Store
  note_dispatched = write_message now (run_id_of intent) (family_name intent.family) "dispatched"

  abbrev pub resume_answer : ResumeReply × Store → Result DispatchResult × Store
  resume_answer (resume_error message, s) = refuse message s
  resume_answer (resume_placed child_run_id node_key, s) = and_then (note_dispatched s) (λ node s'.
      (
        ok (
            accepted_by (some "orchestration.resume_run") (record {
              run_id = child_run_id;
              source_agent = "orchestration";
              graph_node_id = some (fstring ("RunRequest:" ∷ node_key ∷ []));
            })),
        s',
      ))

  unfoldable pub dispatch_resume : Store → Result DispatchResult × Store
  dispatch_resume s =
      let from = resume_stage intent in
      let source = text_or_empty (get "run_id" intent.parameters) in
      elim bus [
        | none ↦ refuse "resume dispatch requires bus context" s
        | some b ↦
            if elem from resume_stages
            then resume_answer (b.resume_run source from s)
            else refuse (fstring ("invalid resume stage: " ∷ from ∷ [])) s
      ]

  unfoldable pub dispatch_routed : Store → Result DispatchResult × Store
  dispatch_routed s = and_then (note_dispatched s) (λ node s'. (
    ok (
        accepted_by (routed_to (capability_matrix intent.family)) (record {
          run_id = run_id_of intent;
          source_agent = "supervisor";
          graph_node_id = some (fstring ("Message:" ∷ node.key ∷ []));
        })),
    s',
  ))

  -- `dispatch_intent` from the test of availability on.
  unfoldable pub dispatch_available : Store → Result DispatchResult × Store
  unfolding dispatch_resume dispatch_routed not_available_reason
  dispatch_available s =
      let approved =
        if is_family intent.family approve
        then (resolve_flag_by_subject python_str now (param_or "subject" "target" intent) s)
        else (ok false, s) in
      if (capability_matrix intent.family).available
      then and_then approved (λ done s'.
        if is_family intent.family resume then dispatch_resume s' else dispatch_routed s')
      else elim (not_available_reason intent.family) [
        | ok reason ↦ refuse reason s
        | raised e ↦ (raised e, s)
      ]

  unfoldable pub dispatch_intent : Store → Result DispatchResult × Store
  unfolding dispatch_stage dispatch_available is_hard_no confirmation_reason
  dispatch_intent s =
      let (blocked, why) = is_hard_no intent in
      let reason = confirmation_reason intent in
      let resolved =
        if is_param "confirmed" "true" intent
        then resolve_flag now (run_id_of intent) "warn" s
        else (ok none, s) in
      if blocked
      then refuse why s
      else if is_family intent.family stage
      then dispatch_stage s
      else if needs_confirmation intent
      then and_then (write_flag now (run_id_of intent) "warn" reason "pending" s)
          (λ node s'. refuse reason s')
      else and_then resolved (λ done s'. dispatch_available s')
