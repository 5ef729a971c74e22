-- ===== src/Tests/Graph.antt =====
-- The graph store on a small graph: a PMRun, the analysis that it came from, and an order.
use trading_agents.Prelude.{
  ◌≡◌, refl, String, true, some, List, [], ◌∷◌, ◌==◌, ◌⊎◌, ◌↔◌, if◌then◌else◌, map, elem, All,
  arith, string_eq, pair_eq,
}
use trading_agents.Prelude.Int.{pos}
use trading_agents.Prelude.Dict.{get, put}
use trading_agents.Kernel.Graph.Value.{Value, str, num, freeze, value_eq}
use trading_agents.Kernel.Graph.Store.{
  NodeKey, Props, Node, Store, empty_store, ok, node_key, make_node, make_edge, frozen_props,
  conflicts, append_props, append_from, merge_at, merge_known, is_partial_completion, merge_node,
  add_edge,
}
use trading_agents.Kernel.Graph.Append.{Holds}
use trading_agents.Kernel.Graph.Idempotent.{merge_node_idempotent, merge_node_appends}
use trading_agents.Kernel.Graph.Edges.{
  IsValid, Untouched, merge_node-IsValid, add_edge-IsValid, merge_node_atomic,
}
use trading_agents.Kernel.Graph.Walk.{walk}
use trading_agents.Kernel.Graph.Walk.Reach.{Distinct}
use trading_agents.Kernel.Graph.Walk.Exact.{ReachedIn, walk_exact}

abbrev written_props : Props
written_props = ("broker_status", str "partial") ∷ ("broker_price_cents", num (pos 100)) ∷ []

abbrev filled_props : Props
filled_props = ("broker_status", str "filled") ∷ ("broker_price_cents", num (pos 101)) ∷ []

abbrev order : Node
order = record { label = "Order"; key = "o1"; props = written_props; schema_version = 1 }

abbrev filled_order : Node
filled_order = record order { props = filled_props }

abbrev with_order : Store
with_order = record { nodes = (("Order", "o1"), order) ∷ []; edges = []; faults = [] }

abbrev with_filled : Store
with_filled = record with_order { nodes = (("Order", "o1"), filled_order) ∷ [] }

completes : merge_node "Order" "o1" filled_props 1 with_order ≡ (ok filled_order, with_filled)
unfolding merge_node merge_at merge_known append_props append_from conflicts is_partial_completion
    value_eq freeze get put make_node frozen_props
completes = refl

merge_node_appends_example :
    ((k : NodeKey)
      → get k with_filled.nodes
        ≡ (if ("Order", "o1") == k then some filled_order else get k with_order.nodes))
    × (with_filled.edges ≡ with_order.edges)
    × (with_filled.faults ≡ with_order.faults)
    × Holds filled_order.props filled_props
    × ((old : Node)
        → get ("Order", "o1") with_order.nodes ≡ some old
        → (old.schema_version ≡ 1)
          × ((name : String) (v : Value)
              → get name old.props ≡ some v
              → (v' : Value) × (get name filled_order.props ≡ some v')
                × ((value_eq (freeze v) v' ≡ true)
                    ⊎ (is_partial_completion old.props filled_props name ≡ true))))
merge_node_appends_example =
    merge_node_appends "Order" "o1" filled_props 1 with_order with_filled filled_order
      (refl, (refl, tt)) completes

merge_node_idempotent_example :
    merge_node "Order" "o1" filled_props 1 with_filled ≡ (ok filled_order, with_filled)
merge_node_idempotent_example =
    merge_node_idempotent "Order" "o1" filled_props 1 with_order with_filled filled_order
      (refl, (refl, tt)) completes

empty-IsValid : IsValid empty_store
unfolding get
empty-IsValid = record { keyed = λ k node h. ground (arith, h); joined = tt; distinct = tt }

creates : merge_node "Order" "o1" written_props 1 empty_store ≡ (ok order, with_order)
unfolding merge_node merge_at get put make_node frozen_props freeze
creates = refl

merge_node-IsValid_example : IsValid with_order
merge_node-IsValid_example =
    merge_node-IsValid "Order" "o1" written_props 1 empty_store with_order order creates
      empty-IsValid

abbrev pm_run : Node
pm_run = record { label = "PMRun"; key = "run-1"; props = []; schema_version = 1 }

abbrev with_both : Store
with_both = record with_order {
  nodes = (("Order", "o1"), order) ∷ (("PMRun", "run-1"), pm_run) ∷ [];
}

starts : merge_node "PMRun" "run-1" [] 1 with_order ≡ (ok pm_run, with_both)
unfolding merge_node merge_at get put make_node frozen_props freeze
starts = refl

both-IsValid : IsValid with_both
both-IsValid = merge_node-IsValid "PMRun" "run-1" [] 1 with_order with_both pm_run starts (
    merge_node-IsValid "Order" "o1" written_props 1 empty_store with_order order creates
      empty-IsValid)

add_edge-IsValid_example : IsValid (add_edge pm_run order "ORDERED" [] with_both).1
add_edge-IsValid_example = add_edge-IsValid pm_run order "ORDERED" [] with_both both-IsValid

abbrev with_edge : Store
with_edge = record with_both {
  edges =
      record {
        parent = ("PMRun", "run-1");
        child = ("Order", "o1");
        edge_type = "ORDERED";
        props = [];
      }
      ∷ [];
}

links : add_edge pm_run order "ORDERED" [] with_both ≡ (ok tt, with_edge)
unfolding add_edge get make_edge frozen_props
links = refl

edge-IsValid : IsValid with_edge
unfolding add_edge get make_edge frozen_props
edge-IsValid = add_edge-IsValid pm_run order "ORDERED" [] with_both both-IsValid

walk_exact_example :
    (out : List Node) × (walk with_edge (some ("ORDERED" ∷ [])) true pm_run 2 ≡ ok out)
    × Distinct (node_key pm_run ∷ map node_key out)
    × All (λ n. get (node_key n) with_edge.nodes ≡ some n) out
    × ((k : NodeKey)
        → (elem k (node_key pm_run ∷ map node_key out) ≡ true)
          ↔ ReachedIn with_edge (some ("ORDERED" ∷ [])) true (node_key pm_run) 2 k)
walk_exact_example = walk_exact with_edge (some ("ORDERED" ∷ [])) true pm_run 2 edge-IsValid

merge_node_atomic_example : Untouched with_order (merge_node "Order" "o1" filled_props 2 with_order)
merge_node_atomic_example = merge_node_atomic "Order" "o1" filled_props 2 with_order
