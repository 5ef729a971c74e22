-- ===== src/Kernel/Graph/Store.antt =====
-- kernel/graph_memory.py, `InMemoryGraphStore`, with the helpers of kernel/graph_support.py and the
-- value types of kernel/graph.py. An operation gives its result or the exception that it raises, and
-- the store after it; `fault_boundary` records the exception on the way out.
use Prim.Native.Nat.{Ordering}
use Prim.Native.String.{compare as compare_text}
use trading_agents.Prelude.{
  ℕ, String, Bool, true, false, not, ◌&&◌, Option, none, some, List, [], ◌∷◌, ◌++◌, ◌==◌, ltb,
  if◌then◌else◌, all, any, elem, filter, fstring, string_eq, nat_eq, pair_eq,
}
use trading_agents.Prelude.Dict.{Dict, get, put, values, is_some}
use trading_agents.Kernel.Graph.Value.{Value, str, freeze, value_eq}

abbrev pub NodeKey : Type 0
NodeKey = String × String

abbrev pub Props : Type 0
Props = Dict String Value

pub record Node : Type 0 where
  pub label : String
  pub key : String
  pub props : Props
  pub schema_version : ℕ

pub record Edge : Type 0 where
  pub parent : NodeKey
  pub child : NodeKey
  pub edge_type : String
  pub props : Props

-- The two exceptions that the store raises, with their texts.
pub data Error : Type 0 where
  value_error key_error : String → Error

-- `_frozen_props`.
unfoldable pub frozen_props : Props → Props
frozen_props [] = []
frozen_props ((k, v) ∷ props) = (k, freeze v) ∷ frozen_props props

-- The constructors, with `__post_init__`.
unfoldable pub make_node : String → String → Props → ℕ → Node
unfolding frozen_props
make_node label key props schema_version = record {
  label = label;
  key = key;
  props = frozen_props props;
  schema_version = schema_version;
}

unfoldable pub make_edge : NodeKey → NodeKey → String → Props → Edge
unfolding frozen_props
make_edge parent child edge_type props = record {
  parent = parent;
  child = child;
  edge_type = edge_type;
  props = frozen_props props;
}

abbrev pub node_key : Node → NodeKey
node_key node = (node.label, node.key)

abbrev pub edge_key : Edge → NodeKey × NodeKey × String
edge_key edge = (edge.parent, edge.child, edge.edge_type)

abbrev pub same_edge : Edge → Edge → Bool
same_edge e f = e.parent == f.parent && (e.child == f.child && e.edge_type == f.edge_type)

abbrev pub partial_completion_props : List String
partial_completion_props =
    "broker_status" ∷ "broker_price_cents" ∷ "broker_status_refreshed_at" ∷ "realized_pnl_cents"
    ∷ []

-- `props.get(name) == text`
abbrev pub has_text : String → String → Props → Bool
has_text name text props = elim (get name props) [ none ↦ false | some v ↦ value_eq v (str text) ]

unfoldable pub is_partial_completion : Props → Props → String → Bool
is_partial_completion existing new_props prop_name =
    elem prop_name partial_completion_props
    && has_text "broker_status" "partial" existing
    && has_text "broker_status" "filled" new_props

-- The test that makes `_append_props` raise for one property.
unfoldable pub conflicts : Props → Props → Props → String → Value → Bool
unfolding is_partial_completion
conflicts existing new_props merged name value =
    elim (get name merged) [ none ↦ false | some old ↦ not (value_eq (freeze old) (freeze value)) ]
    && not (is_partial_completion existing new_props name)

pub data Merge : Type 0 where
  merged_to : Props → Merge
  overwrites : String → Merge

-- The loop of `_append_props` over what is left of `new_props.items()`.
unfoldable pub append_from : Props → Props → Props → Props → Merge
unfolding conflicts
append_from existing new_props [] merged = merged_to merged
append_from existing new_props ((name, value) ∷ rest) merged =
    let after = append_from existing new_props rest (put name (freeze value) merged) in
    if conflicts existing new_props merged name value then overwrites name else after

unfoldable pub append_props : Props → Props → Merge
unfolding append_from
append_props existing new_props = append_from existing new_props new_props existing

pub record Store : Type 0 where
  pub nodes : Dict NodeKey Node
  pub edges : List Edge
  pub faults : List Error

abbrev pub empty_store : Store
empty_store = record { nodes = []; edges = []; faults = [] }

pub data Result (A : Type 0) : Type 0 where
  ok : A → Result A
  raised : Error → Result A

module _ {A : Type 0} where
  -- `with fault_boundary(self.sink, ..., reraise=True)` around an operation.
  abbrev pub fault_boundary : Result A × Store → Result A × Store
  fault_boundary (ok a, s) = (ok a, s)
  fault_boundary (raised e, s) = (raised e, record s { faults = s.faults ++ e ∷ [] })

abbrev pub store_node : Node → Store → Result Node × Store
store_node node s = (ok node, record s { nodes = put (node_key node) node s.nodes })

-- `_merge_node` where the node is known.
unfoldable pub merge_known : String → String → Node → Props → ℕ → Store → Result Node × Store
unfolding append_props make_node
merge_known label key current props schema_version s =
    if current.schema_version == schema_version
    then elim (append_props current.props props) [
      | merged_to merged ↦ store_node (make_node label key merged schema_version) s
      | overwrites name ↦
          (raised (value_error (fstring ("property '" ∷ name ∷ "' cannot be overwritten" ∷ []))), s)
    ]
    else (raised (value_error "schema_version cannot change for an existing node"), s)

-- `_merge_node` past its first guard.
unfoldable pub merge_at : String → String → Props → ℕ → Option Node → Store → Result Node × Store
unfolding merge_known make_node
merge_at label key props schema_version none s =
    store_node (make_node label key props schema_version) s
merge_at label key props schema_version (some current) s =
    merge_known label key current props schema_version s

unfoldable pub merge_node : String → String → Props → ℕ → Store → Result Node × Store
unfolding merge_at
merge_node label key props schema_version s = fault_boundary (
    if ltb schema_version 1
    then (raised (value_error "schema_version must be positive"), s)
    else merge_at label key props schema_version (get (label, key) s.nodes) s)

unfoldable pub get_node : String → String → Store → Option Node
get_node label key s = get (label, key) s.nodes

unfoldable pub list_nodes : String → Store → List Node
list_nodes label s = filter (λ node. node.label == label) (values s.nodes)

abbrev pub missing_node : Node → Error
missing_node node = key_error (fstring ("missing graph node " ∷ node.label ∷ "." ∷ node.key ∷ []))

abbrev pub knows : Store → NodeKey → Bool
knows s k = is_some (get k s.nodes)

abbrev pub add_new_edge : Edge → Store → Store
add_new_edge edge s =
    if all (λ current. not (same_edge current edge)) s.edges
    then record s { edges = s.edges ++ edge ∷ [] }
    else s

unfoldable pub add_edge : Node → Node → String → Props → Store → Result (Unit {0}) × Store
unfolding make_edge
add_edge parent child edge_type props s = fault_boundary (
    if not (knows s (node_key parent))
    then (raised (missing_node parent), s)
    else if not (knows s (node_key child))
    then (raised (missing_node child), s)
    else (ok tt, add_new_edge (make_edge (node_key parent) (node_key child) edge_type props) s))

-- `created_at_on_or_after`: texts are compared by code point.
abbrev pub text_le : String → String → Bool
text_le s t = elim (compare_text s t) [ Ordering.gt ↦ false | _ ↦ true ]

abbrev pub is_text_from : String → Option Value → Bool
is_text_from bound (some (str created_at)) = text_le bound created_at
is_text_from bound _ = false

unfoldable pub created_at_on_or_after : Props → Option String → Bool
created_at_on_or_after props none = true
created_at_on_or_after props (some bound) = is_text_from bound (get "created_at" props)

abbrev pub source_end : Bool → Edge → NodeKey
source_end downstream edge = if downstream then edge.parent else edge.child

abbrev pub target_end : Bool → Edge → NodeKey
target_end downstream edge = if downstream then edge.child else edge.parent

abbrev pub linked : String → Bool → Store → NodeKey → Bool
linked edge_type downstream s k =
    any (λ edge. edge.edge_type == edge_type && source_end downstream edge == k) s.edges

keys_from : String → (NodeKey → Bool) → Option String → Dict NodeKey Node → List String
unfolding created_at_on_or_after
keys_from label is_linked bound [] = []
keys_from label is_linked bound ((k, node) ∷ nodes) =
    let rest = keys_from label is_linked bound nodes in
    if node.label == label && (not (is_linked k) && created_at_on_or_after node.props bound)
    then node.key ∷ rest
    else rest

-- `bound` is the text of `created_at_bound`, made by the caller's datetime.
unfoldable pub keys_without_edge : String → String → Bool → Option String → Store → List String
unfolding keys_from
keys_without_edge label edge_type downstream bound s =
    keys_from label (linked edge_type downstream s) bound s.nodes
