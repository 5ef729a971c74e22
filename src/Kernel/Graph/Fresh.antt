-- ===== src/Kernel/Graph/Fresh.antt =====
-- A write under a new key (kernel/graph_memory.py, `_merge_node`).
use trading_agents.Prelude.{◌≡◌, refl, String, none, string_eq, pair_eq}
use trading_agents.Prelude.Dict.{get, put}
use trading_agents.Kernel.Graph.Store.{
  Node, Props, Store, ok, node_key, make_node, merge_node, merge_at,
}

-- The store with one more node.
abbrev pub with_node : Node → Store → Store
with_node node s = record s { nodes = put (node_key node) node s.nodes }

-- A write under a new key adds its node and nothing else.
pub merge_new :
    (label key : String) (props : Props) (s : Store)
    → get (label, key) s.nodes ≡ none
    → merge_node label key props 1 s
      ≡ (ok (make_node label key props 1), with_node (make_node label key props 1) s)
unfolding merge_node merge_at make_node
merge_new label key props s new = rw new refl
