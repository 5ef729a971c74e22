-- ===== src/Supervisor/Intent.antt =====
-- Intents and what decides on them before any dispatch: contracts/operator.py,
-- agents/supervisor/domain/hard_no.py and matrix.py, with the dispatch result of
-- contracts/supervisor.py.
use trading_agents.Prelude.{
  String, Bool, true, false, ◌&&◌, Option, none, some, [], ◌∷◌, ◌==◌, if◌then◌else◌, fstring,
  string_eq,
}
use trading_agents.Prelude.Dict.{Dict, get}
use trading_agents.Kernel.Graph.Store.{key_error, Result, ok, raised}

pub data IntentFamily : Type 0 where
  status explain approve reject modify run mode stage pause resume : IntentFamily

pub record Provenance : Type 0 where
  pub run_id : String
  pub source_agent : String
  pub graph_node_id : Option String

pub record TypedIntent : Type 0 where
  pub family : IntentFamily
  pub parameters : Dict String String
  pub requires_confirmation : Bool
  pub provenance : Provenance

pub record DispatchResult : Type 0 where
  pub accepted : Bool
  pub routed_to : Option String
  pub rejection : Option String
  pub provenance : Provenance

abbrev pub family_name : IntentFamily → String
family_name status = "status"
family_name explain = "explain"
family_name approve = "approve"
family_name reject = "reject"
family_name modify = "modify"
family_name run = "run"
family_name mode = "mode"
family_name stage = "stage"
family_name pause = "pause"
family_name resume = "resume"

-- `params.get(name) == text`
abbrev pub is_param : String → String → TypedIntent → Bool
is_param name text intent = elim (get name intent.parameters) [
  | none ↦ false
  | some value ↦ value == text
]

abbrev pub is_family : IntentFamily → IntentFamily → Bool
is_family family other = family_name family == family_name other

unfoldable pub is_hard_no : TypedIntent → Bool × String
is_hard_no intent =
    if is_param "stage" "live" intent && is_family intent.family run
    then (true, "live-stage trading is not enabled in this build phase")
    else if is_param "bypass_gate" "true" intent
    then (true, "bypassing the capability gate is permanently forbidden")
    else if is_param "disable_supervisor" "true" intent
    then (true, "disabling the supervisor is permanently forbidden")
    else (false, "")

pub record RouteSpec : Type 0 where
  pub agent : Option String
  pub capability : Option String
  pub available : Bool

abbrev route : String → String → RouteSpec
route agent capability = record {
  agent = some agent;
  capability = some capability;
  available = true;
}

abbrev no_route : RouteSpec
no_route = record { agent = none; capability = none; available = false }

abbrev pub capability_matrix : IntentFamily → RouteSpec
capability_matrix status = route "reporter" "report"
capability_matrix explain = route "reporter" "narrative"
capability_matrix run = route "orchestration" "execute_run"
capability_matrix approve = route "supervisor" "resolve_flag"
capability_matrix reject = no_route
capability_matrix modify = no_route
capability_matrix mode = no_route
capability_matrix stage = route "execution" "promote_stage"
capability_matrix pause = no_route
capability_matrix resume = route "orchestration" "resume_run"

abbrev joined : Option String → Option String → Option String
joined (some agent) (some capability) = some (fstring (agent ∷ "." ∷ capability ∷ []))
joined _ _ = none

abbrev pub routed_to : RouteSpec → Option String
routed_to spec = joined spec.agent spec.capability

-- `BUILD_PHASES`
abbrev build_phases : IntentFamily → Option String
build_phases reject = some "P7"
build_phases modify = some "P7"
build_phases mode = some "P8"
build_phases pause = some "P8"
build_phases _ = none

unfoldable pub not_available_reason : IntentFamily → Result String
not_available_reason family = elim (build_phases family) [
  | none ↦ raised (key_error (fstring ("'" ∷ family_name family ∷ "'" ∷ [])))
  | some phase ↦ ok (
      fstring
        ("not available in current build phase: " ∷ family_name family ∷ " requires " ∷ phase ∷ []))
]
