-- ===== src/Kernel/Graph/Idempotent.antt =====
-- Writing a node a second time (kernel/graph_memory.py `merge_node`), and what a write leaves of the
-- rest of the store.
use trading_agents.Prelude.{
  ℕ, ◌≡◌, refl, subst, ◌∙◌, ap, String, true, false, Option, none, some, [], ◌∷◌, ◌⊎◌, arith, elem,
  if◌then◌else◌, ◌==◌, ==_refl, ==_iff, ltb, string_eq, nat_eq, pair_eq,
}
use trading_agents.Prelude.Dict.{get, keys, get-put, get-put_self, put-get}
use trading_agents.Kernel.Graph.Value.{Value, freeze, value_eq}
use trading_agents.Kernel.Graph.Append.{
  IsUnique, Holds, Holds-frozen_props, get-frozen_props, frozen_props-frozen_props,
  append_from-Holds, append_from_held, append_from-Kept, Origin, merge_node-ok, map_freeze,
}
use trading_agents.Kernel.Graph.Store.{
  NodeKey, Props, Node, frozen_props, make_node, is_partial_completion, append_props, Store, ok,
  merge_node,
}

Holds-skip :
    (k : String) (v : Value) (stored props : Props)
    → elem k (keys props) ≡ false
    → Holds stored props
    → Holds ((k, v) ∷ stored) props
unfolding get
Holds-skip k v stored [] u h = tt
Holds-skip k v stored ((name, value) ∷ props) u h = (
  ground (arith, u, h.0, ==_iff k name, ==_iff name k),
  Holds-skip k v stored props (ground (arith, u)) h.1,
)

Holds-self : (props : Props) → IsUnique props → Holds (frozen_props props) props
unfolding get frozen_props
Holds-self [] u = tt
Holds-self ((k, v) ∷ props) u =
    (rw (==_refl k), Holds-skip k (freeze v) (frozen_props props) props u.0 (Holds-self props u.1))

-- A merged node is frozen, carries the key and the version that were asked for, and holds what
-- was written.
Origin-facts :
    (label key : String) (props : Props) (version : ℕ) (o : Option Node) (node : Node)
    → IsUnique props
    → Origin label key props version o node
    → Holds node.props props
      × (make_node label key node.props version ≡ node)
      × (node.schema_version ≡ version)
unfolding make_node
Origin-facts label key props version none node u e =
    rw e (Holds-self props u, rw (frozen_props-frozen_props props), refl)
Origin-facts label key props version (some current) node u (same, (merged, m, e)) = rw e (
  Holds-frozen_props merged props (
      append_from-Holds current.props props props current.props merged u
        (unfold append_props in m)),
  rw (frozen_props-frozen_props merged),
  refl,
)

merge_again :
    (label key : String) (props : Props) (version : ℕ) (node : Node) (s : Store)
    → get (label, key) s.nodes ≡ some node
    → ltb version 1 ≡ false
    → Holds node.props props
    → make_node label key node.props version ≡ node
    → node.schema_version ≡ version
    → merge_node label key props version s ≡ (ok node, s)
unfolding merge_node append_props
merge_again label key props version node s e fine held frozen same =
    rw (fine, e)
      (ground (
        arith,
        same,
        append_from_held node.props props props node.props held,
        frozen,
        put-get (label, key) node s.nodes e,
      ))

-- A write that succeeded may be sent again: it gives the same node and leaves the store as it is.
pub merge_node_idempotent :
    (label key : String) (props : Props) (version : ℕ) (s s' : Store) (node : Node)
    → IsUnique props
    → merge_node label key props version s ≡ (ok node, s')
    → merge_node label key props version s' ≡ (ok node, s')
merge_node_idempotent label key props version s s' node u e =
    let (fine, origin, t) = merge_node-ok label key props version s s' node e in
    let (held, frozen, same) =
      Origin-facts label key props version (get (label, key) s.nodes) node u origin in
    merge_again label key props version node s' (rw t (get-put_self (label, key) node s.nodes)) fine
      held frozen same

kept_of_Origin :
    (label key : String) (props : Props) (version : ℕ) (old node : Node)
    → IsUnique props
    → Origin label key props version (some old) node
    → (old.schema_version ≡ version)
      × ((name : String) (v : Value)
          → get name old.props ≡ some v
          → (v' : Value) × (get name node.props ≡ some v')
            × ((value_eq (freeze v) v' ≡ true)
                ⊎ (is_partial_completion old.props props name ≡ true)))
unfolding make_node append_props
kept_of_Origin label key props version old node u (same, (merged, m, e)) = (
  same,
  λ name v h.
      let (v', found, why) = append_from-Kept old.props props props old.props merged name v u m h in
      (freeze v', rw e (get-frozen_props name merged ∙ ap map_freeze found), why),
)

-- A write is append-only. It adds one node under its key and touches no other node and no edge;
-- the new node holds every written property; and of the node that was there each property stays
-- equal to what it was, unless the write completes a partial fill and the property is one of the
-- four that such a completion may change.
pub merge_node_appends :
    (label key : String) (props : Props) (version : ℕ) (s s' : Store) (node : Node)
    → IsUnique props
    → merge_node label key props version s ≡ (ok node, s')
    → ((k : NodeKey) → get k s'.nodes ≡ (if (label, key) == k then some node else get k s.nodes))
      × (s'.edges ≡ s.edges)
      × (s'.faults ≡ s.faults)
      × Holds node.props props
      × ((old : Node)
          → get (label, key) s.nodes ≡ some old
          → (old.schema_version ≡ version)
            × ((name : String) (v : Value)
                → get name old.props ≡ some v
                → (v' : Value) × (get name node.props ≡ some v')
                  × ((value_eq (freeze v) v' ≡ true)
                      ⊎ (is_partial_completion old.props props name ≡ true))))
merge_node_appends label key props version s s' node u e =
    let (fine, origin, t) = merge_node-ok label key props version s s' node e in
    let facts = Origin-facts label key props version (get (label, key) s.nodes) node u origin in
    (
      λ k. rw t (get-put (label, key) k node s.nodes),
      rw t refl,
      rw t refl,
      facts.0,
      λ old known.
          kept_of_Origin label key props version old node u
            (subst (λ o. Origin label key props version o node) known origin),
    )
