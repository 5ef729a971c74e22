-- ===== src/Kernel/Graph/Walk.antt =====
-- kernel/graph_memory.py, `_walk`, `ancestors` and `descendants`: a breadth-first walk of at most
-- `max_depth` levels. `seen` is kept in the order of discovery.
pub mod Reach
pub mod Exact
use trading_agents.Prelude.{
  ℕ, zero, suc, String, Bool, true, false, not, ◌&&◌, Option, none, some, List, [], ◌∷◌, ◌++◌, Eq,
  ◌==◌, if◌then◌else◌, elem, fstring, string_eq, pair_eq,
}
use trading_agents.Prelude.Dict.{get}
use trading_agents.Kernel.Graph.Store.{
  NodeKey, Node, Edge, Error, key_error, node_key, Store, Result, ok, raised, fault_boundary,
  source_end, target_end,
}

-- `_edge_allowed`.
unfoldable pub edge_allowed : Edge → Option (List String) → Bool
edge_allowed edge none = true
edge_allowed edge (some edge_types) = elem edge.edge_type edge_types

-- The variables of `_walk`.
pub record Progress : Type 0 where
  pub seen : List NodeKey
  pub frontier : List NodeKey
  pub out : List Node

abbrev pub no_target : NodeKey → Error
no_target (label, key) = key_error (fstring ("('" ∷ label ∷ "', '" ∷ key ∷ "')" ∷ []))

module _ (s : Store) (edge_types : Option (List String)) (downstream : Bool) where
  -- A target that has been found, with the node stored under it.
  abbrev pub discover : NodeKey → Node → Progress → Progress
  discover target found p = if elem target p.seen then p else record {
    seen = p.seen ++ target ∷ [];
    frontier = p.frontier ++ target ∷ [];
    out = p.out ++ found ∷ [];
  }

  -- One edge of the inner loop. `frontier` is the level that is left, `p.frontier` the next one.
  unfoldable pub visit : List NodeKey → Edge → Progress → Result Progress
  unfolding edge_allowed
  visit frontier edge p =
      if elem (source_end downstream edge) frontier && edge_allowed edge edge_types
      then elim (get (target_end downstream edge) s.nodes) [
        | none ↦ raised (no_target (target_end downstream edge))
        | some found ↦ ok (discover (target_end downstream edge) found p)
      ]
      else ok p

  unfoldable pub visit_all : List NodeKey → List Edge → Progress → Result Progress
  unfolding visit
  visit_all frontier [] p = ok p
  visit_all frontier (edge ∷ edges) p = elim (visit frontier edge p) [
    | ok p' ↦ visit_all frontier edges p'
    | raised e ↦ raised e
  ]

  -- `for _ in range(max_depth):`, left when the frontier is empty.
  unfoldable pub levels : ℕ → Progress → Result Progress
  unfolding visit_all
  levels zero p = ok p
  levels (suc depth) p = elim (visit_all p.frontier s.edges (record p { frontier = [] })) [
    | raised e ↦ raised e
    | ok p' ↦ elim p'.frontier [ [] ↦ ok p' | k ∷ frontier ↦ levels depth p' ]
  ]

  -- `max_depth < 1` gives no level, and so the empty list.
  unfoldable pub walk : Node → ℕ → Result (List Node)
  unfolding levels
  walk node max_depth =
      elim (levels max_depth
        (record { seen = node_key node ∷ []; frontier = node_key node ∷ []; out = [] })) [
          | raised e ↦ raised e
          | ok p ↦ ok p.out
        ]

unfoldable pub ancestors : Node → ℕ → Option (List String) → Store → Result (List Node) × Store
unfolding walk
ancestors node max_depth edge_types s = fault_boundary (walk s edge_types false node max_depth, s)

unfoldable pub descendants : Node → ℕ → Option (List String) → Store → Result (List Node) × Store
unfolding walk
descendants node max_depth edge_types s = fault_boundary (walk s edge_types true node max_depth, s)
