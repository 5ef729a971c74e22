-- ===== src/Tests/Supervisor.antt =====
-- The intent gate on a status intent without a bus, and the resolution of a flag.
use trading_agents.Prelude.{
  ◌≡◌, refl, arith, String, false, not, ◌&&◌, ◌||◌, none, some, [], ◌∷◌, string_eq, pair_eq,
}
use trading_agents.Prelude.Dict.{get, put}
use trading_agents.Kernel.Graph.Value.{Value, str, freeze}
use trading_agents.Kernel.Graph.Store.{
  Node, Store, empty_store, ok, get_node, merge_node, merge_at, make_node, frozen_props,
}
use trading_agents.Kernel.Graph.Edges.{IsValid, merge_node-IsValid}
use trading_agents.Supervisor.Flags.{resolution_key, resolve_flag}
use trading_agents.Supervisor.Flags.Resolved.{resolve_flag_settles}
use trading_agents.Supervisor.Intent.{TypedIntent, status, stage, is_family, is_hard_no}
use trading_agents.Supervisor.Gate.{needs_confirmation, dispatch_intent}
use trading_agents.Supervisor.Gate.Routing.{Routes, dispatch_intent-Routes}

abbrev python_str : Value → String
python_str value = "None"

abbrev asks : TypedIntent
asks = record {
  family = status;
  parameters = [];
  requires_confirmation = false;
  provenance = record { run_id = "run-1"; source_agent = "operator"; graph_node_id = none };
}

dispatch_intent-Routes_example :
    Routes
      (not (is_hard_no asks).0 && (is_family asks.family stage || not (needs_confirmation asks)))
      asks
      (dispatch_intent python_str "2026-01-01" none asks empty_store)
dispatch_intent-Routes_example =
    dispatch_intent-Routes python_str "2026-01-01" none asks empty_store

abbrev flag : Node
flag = record {
  label = "Flag";
  key = "flag:run-1:warn";
  props = ("subject_ref", str "run-1") ∷ ("severity", str "warn") ∷ [];
  schema_version = 1;
}

abbrev with_flag : Store
with_flag = record { nodes = (("Flag", "flag:run-1:warn"), flag) ∷ []; edges = []; faults = [] }

flag-IsValid : IsValid with_flag
unfolding merge_node merge_at get put make_node frozen_props freeze
flag-IsValid =
    merge_node-IsValid "Flag" "flag:run-1:warn" flag.props 1 empty_store with_flag flag refl
      (record { keyed = λ k node h. ground (arith, h); joined = tt; distinct = tt })

resolve_flag_settles_example :
    (r : Node) × (s' : Store) × (resolve_flag "2026-01-01" "run-1" "warn" with_flag
      ≡ (ok (some r), s'))
    × (get_node "FlagResolution" (resolution_key "run-1" "warn") s' ≡ some r)
    × (resolve_flag "2026-01-02" "run-1" "warn" s' ≡ (ok (some r), s'))
unfolding get_node get
resolve_flag_settles_example =
    resolve_flag_settles "2026-01-01" "2026-01-02" "run-1" "warn" flag with_flag flag-IsValid refl
