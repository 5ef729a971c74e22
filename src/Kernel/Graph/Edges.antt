-- ===== src/Kernel/Graph/Edges.antt =====
-- Edges (kernel/graph_memory.py `add_edge`): the invariant of the store, and what each operation
-- does when it raises.
use trading_agents.Prelude.{
  ℕ, ◌≡◌, refl, String, Bool, true, false, not, Option, none, some, List, [], ◌∷◌, ◌++◌, inl, inr,
  arith, All, All-append, All-mono, all, ◌==◌, ==_refl, ==_iff, ltb, Bool-cases, string_eq, nat_eq,
  pair_eq,
}
use trading_agents.Prelude.Dict.{get, put, get-put, is_some}
use trading_agents.Kernel.Graph.Append.{Origin, merge_node-ok, Merge-cases}
use trading_agents.Kernel.Graph.Store.{
  NodeKey, Props, Node, Edge, make_node, make_edge, node_key, same_edge, Store, Result, ok, raised,
  fault_boundary, knows, add_new_edge, add_edge, merge_node, merge_at, merge_known, append_props,
}

-- No edge of the list has the ends and the type of an earlier one.
abbrev pub AllDistinct : List Edge → Type 0
AllDistinct [] = Unit
AllDistinct (e ∷ edges) = All (λ f. same_edge e f ≡ false) edges × AllDistinct edges

-- Every node stands under its own key, every edge joins nodes that are there, and no edge is there
-- twice.
pub record IsValid (s : Store) : Type 0 where
  pub keyed : (k : NodeKey) (node : Node) → get k s.nodes ≡ some node → node_key node ≡ k
  pub joined : All (λ e. (knows s e.parent ≡ true) × (knows s e.child ≡ true)) s.edges
  pub distinct : AllDistinct s.edges

-- What an operation that raises has done: nothing but record the exception.
abbrev pub Untouched : {A : Type 0} → Store → Result A × Store → Type 0
Untouched s (ok a, s') = Unit
Untouched s (raised e, s') = s' ≡ record s { faults = s.faults ++ e ∷ [] }

Origin-key :
    (label key : String) (props : Props) (version : ℕ) (o : Option Node) (node : Node)
    → Origin label key props version o node
    → node_key node ≡ (label, key)
unfolding make_node
Origin-key label key props version none node e = rw e
Origin-key label key props version (some current) node (same, (merged, m, e)) = rw e

knows-put :
    (s : Store) (k j : NodeKey) (node : Node)
    → knows s j ≡ true
    → is_some (get j (put k node s.nodes)) ≡ true
knows-put s k j node h = ground (arith, get-put k j node s.nodes)

-- A write keeps the invariant.
pub merge_node-IsValid :
    (label key : String) (props : Props) (version : ℕ) (s s' : Store) (node : Node)
    → merge_node label key props version s ≡ (ok node, s')
    → IsValid s
    → IsValid s'
merge_node-IsValid label key props version s s' node e v =
    let (fine, origin, t) = merge_node-ok label key props version s s' node e in
    rw t (record {
      keyed = λ k n h. elim (Bool-cases ((label, key) == k)) [
        | inl same ↦ ground (
          arith,
          Origin-key label key props version (get (label, key) s.nodes) node origin,
          get-put (label, key) k node s.nodes,
          h,
          (==_iff (label, key) k).0 same,
        )
        | inr other ↦ v.keyed k n (ground (arith, get-put (label, key) k node s.nodes, h, other))
      ];
      joined =
          All-mono _ _
            (λ edge known. (
              knows-put s (label, key) edge.parent node known.0,
              knows-put s (label, key) edge.child node known.1,
            ))
            s.edges v.joined;
      distinct = v.distinct;
    })

AllDistinct-snoc :
    (edges : List Edge) (e : Edge)
    → all (λ current. not (same_edge current e)) edges ≡ true
    → AllDistinct edges
    → AllDistinct (edges ++ e ∷ [])
AllDistinct-snoc [] e new h = (tt, tt)
AllDistinct-snoc (f ∷ edges) e new h = (
  All-append _ edges (e ∷ []) h.0 (ground (arith, new), tt),
  AllDistinct-snoc edges e (ground (arith, new)) h.1,
)

add_new_edge-IsValid :
    (e : Edge) (s : Store)
    → knows s e.parent ≡ true
    → knows s e.child ≡ true
    → IsValid s
    → IsValid (add_new_edge e s)
add_new_edge-IsValid e s p c v =
    elim (Bool-cases (all (λ current. not (same_edge current e)) s.edges)) [
      | inl new ↦ rw new (record {
        keyed = v.keyed;
        joined = All-append _ s.edges (e ∷ []) v.joined ((p, c), tt);
        distinct = AllDistinct-snoc s.edges e new v.distinct;
      })
      | inr old ↦ rw old v
    ]

-- Adding an edge keeps the invariant, on every branch.
pub add_edge-IsValid :
    (parent child : Node) (edge_type : String) (props : Props) (s : Store)
    → IsValid s
    → IsValid (add_edge parent child edge_type props s).1
unfolding add_edge
add_edge-IsValid parent child edge_type props s v =
    let e = make_edge (node_key parent) (node_key child) edge_type props in
    elim (Bool-cases (knows s (node_key parent))) [
      | inr p ↦ rw p (record { keyed = v.keyed; joined = v.joined; distinct = v.distinct })
      | inl p ↦ elim (Bool-cases (knows s (node_key child))) [
        | inr c ↦ rw (p, c) (record { keyed = v.keyed; joined = v.joined; distinct = v.distinct })
        | inl c ↦ rw (p, c) (add_new_edge-IsValid e s p c v)
      ]
    ]

all-snoc :
    (edges : List Edge) (e : Edge) (p : Edge → Bool) → p e ≡ false → all p (edges ++ e ∷ []) ≡ false
all-snoc [] e p h = ground (arith, h)
all-snoc (f ∷ edges) e p h = ground (arith, all-snoc edges e p h)

same_edge_refl : (e : Edge) → same_edge e e ≡ true
same_edge_refl e = ground (arith, ==_refl e.parent, ==_refl e.child, ==_refl e.edge_type)

add_new_edge_again : (e : Edge) (s : Store) → add_new_edge e (add_new_edge e s) ≡ add_new_edge e s
add_new_edge_again e s = elim (Bool-cases (all (λ current. not (same_edge current e)) s.edges)) [
  | inl new ↦ rw (
    new,
    all-snoc s.edges e (λ current. not (same_edge current e)) (ground (arith, same_edge_refl e)),
  )
  | inr old ↦ rw (old, old)
]

knows-add_new_edge : (e : Edge) (s : Store) (k : NodeKey) → knows (add_new_edge e s) k ≡ knows s k
knows-add_new_edge e s k = ground arith

-- An edge that is added again is not there twice: the second call changes nothing, and fails
-- nowhere that the first did not.
pub add_edge_idempotent :
    (parent child : Node) (edge_type : String) (props : Props) (s s' : Store)
    → add_edge parent child edge_type props s ≡ (ok tt, s')
    → add_edge parent child edge_type props s' ≡ (ok tt, s')
unfolding add_edge
add_edge_idempotent parent child edge_type props s s' e =
    let edge = make_edge (node_key parent) (node_key child) edge_type props in
    elim (Bool-cases (knows s (node_key parent))) [
      | inr p ↦ absurd (ground (arith, p))
      | inl p ↦ elim (Bool-cases (knows s (node_key child))) [
        | inr c ↦ absurd (ground (arith, p, c))
        | inl c ↦
            let t : add_new_edge edge s ≡ s' = ground (arith, p, c) in
            rw (← t) (
              rw (
                knows-add_new_edge edge s (node_key parent),
                knows-add_new_edge edge s (node_key child),
                p,
                c,
                add_new_edge_again edge s,
              ))
      ]
    ]

merge_known-Untouched :
    (label key : String) (current : Node) (props : Props) (version : ℕ) (s : Store)
    → Untouched s (fault_boundary (merge_known label key current props version s))
unfolding merge_known
merge_known-Untouched label key current props version s =
    elim (Bool-cases (current.schema_version == version)) [
      | inr other ↦ rw other refl
      | inl same ↦ elim (Merge-cases (append_props current.props props)) [
        | inl (merged, m) ↦ rw (same, m) tt
        | inr (name, m) ↦ rw (same, m) refl
      ]
    ]

merge_at-Untouched :
    (label key : String) (props : Props) (version : ℕ) (o : Option Node) (s : Store)
    → Untouched s (fault_boundary (merge_at label key props version o s))
unfolding merge_at
merge_at-Untouched label key props version none s = tt
merge_at-Untouched label key props version (some current) s =
    merge_known-Untouched label key current props version s

-- A write that raises leaves nodes and edges alone: it only records what it raised.
pub merge_node_atomic :
    (label key : String) (props : Props) (version : ℕ) (s : Store)
    → Untouched s (merge_node label key props version s)
unfolding merge_node
merge_node_atomic label key props version s = elim (Bool-cases (ltb version 1)) [
  | inl bad ↦ rw bad refl
  | inr fine ↦ rw fine (merge_at-Untouched label key props version (get (label, key) s.nodes) s)
]

-- Adding an edge that raises, for an end that is not there, leaves nodes and edges alone too: it only
-- records what it raised.
pub add_edge_atomic :
    (parent child : Node) (edge_type : String) (props : Props) (s : Store)
    → Untouched s (add_edge parent child edge_type props s)
unfolding add_edge
add_edge_atomic parent child edge_type props s = ground arith
