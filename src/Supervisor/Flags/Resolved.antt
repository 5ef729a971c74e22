-- ===== src/Supervisor/Flags/Resolved.antt =====
-- The resolution of a flag (agents/supervisor/store.py, `resolve_flag`).
use trading_agents.Prelude.{
  ◌≡◌, refl, ◌∙◌, ap, String, true, none, some, [], ◌∷◌, arith, Option-cases, inl, inr, string_eq,
  pair_eq,
}
use trading_agents.Prelude.Dict.{get, get-put, get-put_self}
use trading_agents.Kernel.Graph.Value.{str}
use trading_agents.Kernel.Graph.Store.{
  NodeKey, Node, Edge, Props, Store, ok, node_key, knows, make_node, make_edge, get_node,
  add_new_edge, add_edge,
}
use trading_agents.Kernel.Graph.Edges.{IsValid}
use trading_agents.Kernel.Graph.Fresh.{with_node, merge_new}
use trading_agents.Supervisor.Flags.{flag_key, resolution_key, add_resolution, resolve_flag}

add_edge_known :
    (parent child : Node) (edge_type : String) (props : Props) (s : Store)
    → knows s (node_key parent) ≡ true
    → knows s (node_key child) ≡ true
    → add_edge parent child edge_type props s
      ≡ (ok tt, add_new_edge (make_edge (node_key parent) (node_key child) edge_type props) s)
unfolding add_edge
add_edge_known parent child edge_type props s p c = ground (arith, p, c)

knows_at : (s : Store) (k : NodeKey) (node : Node) → get k s.nodes ≡ some node → knows s k ≡ true
knows_at s k node h = rw h refl

add_new_edge_nodes : (edge : Edge) (s : Store) → (add_new_edge edge s).nodes ≡ s.nodes
add_new_edge_nodes edge s = ground arith

module _ (now subject_ref severity : String) where
  abbrev resolution_props : Props
  resolution_props =
      ("subject_ref", str subject_ref) ∷ ("severity", str severity) ∷ ("resolved_at", str now) ∷ []

  abbrev new_resolution : Node
  new_resolution =
      make_node "FlagResolution" (resolution_key subject_ref severity) resolution_props 1

  abbrev resolved_store : Node → Store → Store
  resolved_store flag_node s =
      add_new_edge (make_edge (node_key new_resolution) (node_key flag_node) "RESOLVES" [])
        (with_node new_resolution s)

  add_resolution_runs :
      (flag_node : Node) (s : Store)
      → get ("FlagResolution", resolution_key subject_ref severity) s.nodes ≡ none
      → knows (with_node new_resolution s) (node_key flag_node) ≡ true
      → knows (with_node new_resolution s) (node_key new_resolution) ≡ true
      → add_resolution now subject_ref severity flag_node s
        ≡ (ok (some new_resolution), resolved_store flag_node s)
  unfolding add_resolution
  add_resolution_runs flag_node s new flag_there there =
      rw (merge_new "FlagResolution" (resolution_key subject_ref severity) resolution_props s new) (
        rw
          (add_edge_known new_resolution flag_node "RESOLVES" [] (with_node new_resolution s) there
            flag_there)
          refl)

  new_key : node_key new_resolution ≡ ("FlagResolution", resolution_key subject_ref severity)
  unfolding make_node
  new_key = refl

  -- What the keys of the flag and of the resolution hold afterwards.
  new_there :
      (s : Store)
      → get
          ("FlagResolution", resolution_key subject_ref severity)
          (with_node new_resolution s).nodes
        ≡ some new_resolution
  unfolding make_node
  new_there s =
      get-put_self ("FlagResolution", resolution_key subject_ref severity) new_resolution s.nodes

  flag_kept :
      (s : Store)
      → get ("Flag", flag_key subject_ref severity) (with_node new_resolution s).nodes
        ≡ get ("Flag", flag_key subject_ref severity) s.nodes
  unfolding make_node
  flag_kept s = ground (
    arith,
    get-put ("FlagResolution", resolution_key subject_ref severity)
        ("Flag", flag_key subject_ref severity) new_resolution s.nodes,
  )

resolve_flag_known :
    (now subject_ref severity : String) (flag_node current : Node) (s : Store)
    → get_node "Flag" (flag_key subject_ref severity) s ≡ some flag_node
    → get_node "FlagResolution" (resolution_key subject_ref severity) s ≡ some current
    → resolve_flag now subject_ref severity s ≡ (ok (some current), s)
unfolding resolve_flag
resolve_flag_known now subject_ref severity flag_node current s f r = ground (arith, f, r)

resolve_flag_new :
    (now subject_ref severity : String) (flag_node : Node) (s : Store)
    → get_node "Flag" (flag_key subject_ref severity) s ≡ some flag_node
    → get_node "FlagResolution" (resolution_key subject_ref severity) s ≡ none
    → resolve_flag now subject_ref severity s ≡ add_resolution now subject_ref severity flag_node s
unfolding resolve_flag
resolve_flag_new now subject_ref severity flag_node s f r = ground (arith, f, r)

-- In a valid store, resolving a flag that is there always succeeds: its resolution is then in the
-- graph, and resolving it again, at any time, gives the same node and changes nothing.
pub resolve_flag_settles :
    (now later subject_ref severity : String) (flag_node : Node) (s : Store)
    → IsValid s
    → get_node "Flag" (flag_key subject_ref severity) s ≡ some flag_node
    → (r : Node) × (s' : Store) × (resolve_flag now subject_ref severity s ≡ (ok (some r), s'))
      × (get_node "FlagResolution" (resolution_key subject_ref severity) s' ≡ some r)
      × (resolve_flag later subject_ref severity s' ≡ (ok (some r), s'))
unfolding get_node
resolve_flag_settles now later subject_ref severity flag_node s valid f =
    let key = resolution_key subject_ref severity in
    elim (Option-cases (get ("FlagResolution", key) s.nodes)) [
      | inr (current, r) ↦ (
        current,
        s,
        resolve_flag_known now subject_ref severity flag_node current s f r,
        r,
        resolve_flag_known later subject_ref severity flag_node current s f r,
      )
      | inl new ↦
          let fresh = new_resolution now subject_ref severity in
          let middle = with_node fresh s in
          let s' = resolved_store now subject_ref severity flag_node s in
          let edge = make_edge (node_key fresh) (node_key flag_node) "RESOLVES" [] in
          let same = add_new_edge_nodes edge middle in
          let at_flag = flag_kept now subject_ref severity s ∙ f in
          let at_new = new_there now subject_ref severity s in
          let found = ap (λ nodes. get ("FlagResolution", key) nodes) same ∙ at_new in
          let flagged =
            ap (λ nodes. get ("Flag", flag_key subject_ref severity) nodes) same ∙ at_flag in
          (
            fresh,
            s',
            resolve_flag_new now subject_ref severity flag_node s f new
                ∙ add_resolution_runs now subject_ref severity flag_node s new
                    (knows_at middle (node_key flag_node) flag_node (
                      ap (λ k. get k middle.nodes)
                        (valid.keyed ("Flag", flag_key subject_ref severity) flag_node f)
                      ∙ at_flag))
                    (knows_at middle (node_key fresh) fresh
                      (ap (λ k. get k middle.nodes) (new_key now subject_ref severity) ∙ at_new)),
            found,
            resolve_flag_known later subject_ref severity flag_node fresh s' flagged found,
          )
    ]
