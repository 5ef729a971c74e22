-- ===== src/Orchestration/RunHold.antt =====
-- orchestration/scheduled_dispatch_gate.py, with the types of fleet_readiness.py: the hold of a
-- scheduled run while the fleet is not ready. The readiness is given; `number` is Python's text of an
-- int, and a day and a moment are their ISO texts.
pub mod Held
use trading_agents.Prelude.{
  ℕ, String, Bool, true, false, not, ◌&&◌, Option, none, some, List, [], ◌∷◌, length, filter,
  if◌then◌else◌, fstring, string_eq,
}
use trading_agents.Prelude.Dict.{get, is_some}
use trading_agents.Kernel.Graph.Value.{Value, str, list, Items, nil, cons}
use trading_agents.Kernel.Graph.Store.{
  Node, Props, Store, Result, ok, raised, list_nodes, merge_node, has_text,
}

pub data ReadinessState : Type 0 where
  ready degraded failing unknown : ReadinessState

pub record Readiness : Type 0 where
  pub state : ReadinessState
  pub preflight_key : String
  pub checked_at : String
  pub failures : List String

-- `DispatchHold`, whose state is the text of `failing` or `unknown`.
pub record DispatchHold : Type 0 where
  pub state : String
  pub node_key : String
  pub failures : List String

unfoldable pub is_active_run_hold : Node → Bool
is_active_run_hold node =
    has_text "state" "held" node.props && not (is_some (get "released_at" node.props))

abbrev pub is_dispatchable : ReadinessState → Bool
is_dispatchable ready = true
is_dispatchable degraded = true
is_dispatchable _ = false

abbrev pub hold_state : ReadinessState → String
hold_state unknown = "unknown"
hold_state _ = "failing"

unfoldable pub first_active : List Node → Option Node
unfolding is_active_run_hold
first_active [] = none
first_active (node ∷ nodes) = if is_active_run_hold node then some node else first_active nodes

abbrev pub items_of : List String → Items
items_of [] = nil
items_of (text ∷ texts) = cons (str text) (items_of texts)

unfoldable pub holds_of : String → Store → List Node
unfolding list_nodes
holds_of run_id graph =
    filter (λ node. has_text "run_id" run_id node.props) (list_nodes "RunHold" graph)

-- After the merge of a released hold.
abbrev pub released : Result Node × Store → Result (Option DispatchHold) × Store
released (ok node, graph) = (ok none, graph)
released (raised e, graph) = (raised e, graph)

abbrev pub release : Option Node → String → Store → Result (Option DispatchHold) × Store
release none now graph = (ok none, graph)
release (some hold) now graph =
    released (merge_node "RunHold" hold.key (("released_at", str now) ∷ []) 1 graph)

abbrev pub written : Readiness → Result Node × Store → Result (Option DispatchHold) × Store
written readiness (ok node, graph) = (
  ok (
      some (record {
        state = hold_state readiness.state;
        node_key = node.key;
        failures = readiness.failures;
      })),
  graph,
)
written readiness (raised e, graph) = (raised e, graph)

module _ (number : ℕ → String) (run_id as_of now : String) (readiness : Readiness) where
  abbrev pub hold_props : Props
  hold_props =
      ("run_id", str run_id)
      ∷ ("as_of", str as_of)
      ∷ ("held_at", str now)
      ∷ ("state", str "held")
      ∷ ("readiness_state", str (hold_state readiness.state))
      ∷ ("preflight_key", str readiness.preflight_key)
      ∷ ("failures", list (items_of readiness.failures))
      ∷ []

  unfoldable pub hold_key : List Node → String
  hold_key [] = fstring ("hold:" ∷ run_id ∷ [])
  hold_key (hold ∷ holds) = fstring ("hold:" ∷ run_id ∷ ":" ∷ number (length (hold ∷ holds)) ∷ [])

  -- A run that is not dispatched: the hold that is active, or a new one.
  unfoldable pub hold_with : Option Node → List Node → Store → Result (Option DispatchHold) × Store
  unfolding hold_key
  hold_with (some hold) holds graph = (
    ok (
        some (record {
          state = hold_state readiness.state;
          node_key = hold.key;
          failures = readiness.failures;
        })),
    graph,
  )
  hold_with none holds graph =
      written readiness (merge_node "RunHold" (hold_key holds) hold_props 1 graph)

  unfoldable pub hold_unready_run : Store → Result (Option DispatchHold) × Store
  unfolding holds_of first_active hold_with
  hold_unready_run graph =
      let holds = holds_of run_id graph in
      let active_hold = first_active holds in
      if is_dispatchable readiness.state
      then release active_hold now graph
      else hold_with active_hold holds graph
