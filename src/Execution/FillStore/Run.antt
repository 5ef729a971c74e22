-- ===== src/Execution/FillStore/Run.antt =====
-- The fills of a whole run are written (agents/execution/store.py).
use trading_agents.Prelude.{
  ℕ, ◌≡◌, refl, sym, ap, subst, ◌∙◌, String, true, false, Option, none, some, List, [], ◌∷◌, All,
  arith, ◌==◌, ==_refl, string_eq, pair_eq, if◌then◌else◌, Bool-cases, inl, inr, fstring,
}
use trading_agents.Prelude.Dict.{get}
use trading_agents.Kernel.Graph.Store.{
  Node, Props, NodeKey, Edge, Store, Result, ok, node_key, make_edge, knows, add_new_edge, add_edge,
  get_node,
}
use trading_agents.Kernel.Graph.Append.{Holds}
use trading_agents.Kernel.Graph.Edges.{IsValid, add_edge-IsValid, merge_node-IsValid}
use trading_agents.Execution.PaperBroker.{BrokerFill}
use trading_agents.Execution.FillAttempts.{FillAttempt}
use trading_agents.Execution.FillAttempts.Written.{AllScalar}
use trading_agents.Execution.FillAttempts.Selection.{IsFirst}
use trading_agents.Execution.FillStore.{
  OrderIntentSet, fill_props, Provenance, pm_run_key, link_order_intent, link_to, write_fill,
  link_written, first_or, write_from, write_fills,
}
use trading_agents.Execution.FillStore.Written.{write_fill_idempotent}

add_new_edge-nodes : (e : Edge) (s : Store) → (add_new_edge e s).nodes ≡ s.nodes
add_new_edge-nodes e s = ground arith

add_edge_known :
    (parent child : Node) (edge_type : String) (props : Props) (s : Store)
    → knows s (node_key parent) ≡ true
    → knows s (node_key child) ≡ true
    → add_edge parent child edge_type props s
      ≡ (ok tt, add_new_edge (make_edge (node_key parent) (node_key child) edge_type props) s)
unfolding add_edge
add_edge_known parent child edge_type props s p c = rw (p, c) refl

-- A link between nodes of the graph changes no node.
abbrev Linked : Store → Result (Unit {0}) × Store → Type 0
Linked s out = (s' : Store) × (out ≡ (ok tt, s')) × (s'.nodes ≡ s.nodes) × IsValid s'

link_to-Linked :
    (fill : Node) (key : String) (s : Store) (found : Option Node)
    → knows s (node_key fill) ≡ true
    → IsValid s
    → get_node "OrderIntent" key s ≡ found
    → Linked s (link_to fill found s)
unfolding get_node
link_to-Linked fill key s none known valid h = (s, refl, refl, valid)
link_to-Linked fill key s (some order) known valid h =
    let there : knows s (node_key order) ≡ true =
      rw (valid.keyed ("OrderIntent", key) order h, h) refl in
    let ran = add_edge_known fill order "EXECUTES" [] s known there in
    (
      _,
      ran,
      add_new_edge-nodes _ s,
      subst (λ out. IsValid out.1) ran (add_edge-IsValid fill order "EXECUTES" [] s valid),
    )

link_order_intent-Linked :
    (fill : Node) (run_key : Option String) (ticker : String) (s : Store)
    → knows s (node_key fill) ≡ true
    → IsValid s
    → Linked s (link_order_intent fill run_key ticker s)
unfolding link_order_intent
link_order_intent-Linked fill none ticker s known valid = (s, refl, refl, valid)
link_order_intent-Linked fill (some run_key) ticker s known valid =
    link_to-Linked fill _ s _ known valid refl

module _ (number : ℕ → String) (injective : (i j : ℕ) → number i ≡ number j → i ≡ j)
    (order_tolerance_props : BrokerFill → Props) (order_set : Option OrderIntentSet) where
  abbrev HasScalars : BrokerFill → Type 0
  HasScalars fill = AllScalar (order_tolerance_props fill)

  -- The first usable attempt of a fill.
  abbrev pub IsAttemptOf : BrokerFill → Store → FillAttempt → Type 0
  IsAttemptOf fill s a =
      IsFirst number injective s fill.idempotency_key
        (fill_props number order_tolerance_props fill order_set) false a

  -- What a run of writes relies on.
  abbrev pub IsReady : Store → Type 0
  IsReady s =
      IsValid s
      × ((key : String) (old : Node)
          → get ("Fill", key) s.nodes ≡ some old
          → old.schema_version ≡ 1)

  known_after :
      (s s' : Store) (written : NodeKey) (node : Node)
      → ((k : NodeKey) → get k s'.nodes ≡ (if written == k then some node else get k s.nodes))
      → node_key node ≡ written
      → knows s' (node_key node) ≡ true
  known_after s s' written node after keyed = rw (keyed, after written, ==_refl written) refl

  version_kept :
      (s s' : Store) (written : NodeKey) (node : Node)
      → ((k : NodeKey) → get k s'.nodes ≡ (if written == k then some node else get k s.nodes))
      → node.schema_version ≡ 1
      → IsReady s
      → (key : String) (old : Node) → get ("Fill", key) s'.nodes ≡ some old
      → old.schema_version ≡ 1
  version_kept s s' written node after version ready key old at =
      elim (Bool-cases (written == ("Fill", key))) [
        | inl same ↦ ground (arith, after ("Fill", key), same, at, version)
        | inr apart ↦ ready.1 key old (ground (arith, after ("Fill", key), apart, at))
      ]

  abbrev written : BrokerFill → Store → Option (Result Node × Store)
  written fill s =
      link_written number order_tolerance_props order_set fill.ticker
        (write_fill number order_tolerance_props fill order_set s)

  written_fill :
      (fill : BrokerFill) (s : Store)
      → HasScalars fill
      → IsReady s
      → (a : FillAttempt) × (node : Node) × (s' : Store) × (written fill s ≡ some (ok node, s'))
        × IsAttemptOf fill s a
        × (node_key node ≡ ("Fill", a.key))
        × IsReady s'
        × (get ("Fill", a.key) s'.nodes ≡ some node)
        × Holds node.props a.props
  written_fill fill s scalar ready =
      let (a, node, s1, wrote, merged, first, after, edges, held, keyed, version, again) =
        write_fill_idempotent number injective order_tolerance_props fill order_set scalar s
          ready.1 in
      let valid = merge_node-IsValid "Fill" a.key a.props 1 s s1 node merged ready.0 in
      let there : knows s1 (node_key node) ≡ true =
        known_after s s1 ("Fill", a.key) node after keyed in
      let (s2, linked, same, valid2) =
        link_order_intent-Linked node (pm_run_key order_set) fill.ticker s1 there valid in
      (
        a,
        node,
        s2,
        rw (wrote, linked) refl,
        first,
        keyed,
        (
          valid2,
          λ key old at.
              version_kept s s1 ("Fill", a.key) node after version ready key old
                (ap (get ("Fill", key)) (sym same) ∙ at),
        ),
        ap (get ("Fill", a.key)) same
            ∙ ground (arith, after ("Fill", a.key), ==_refl {A = NodeKey} ("Fill", a.key)),
        held,
      )

  abbrev loop : String → List BrokerFill → Option Node → Store → Option (Result Provenance × Store)
  loop run_id fills first s = write_from number order_tolerance_props run_id fills order_set first s

  abbrev provenance_of : String → Option String → Provenance
  provenance_of run_id graph_node_id = record {
    run_id = run_id;
    source_agent = "execution";
    graph_node_id = graph_node_id;
  }

  loop_next :
      (run_id : String) (fill : BrokerFill) (fills : List BrokerFill) (first : Option Node)
      (s s' : Store) (node : Node)
      → written fill s ≡ some (ok node, s')
      → loop run_id (fill ∷ fills) first s ≡ loop run_id fills (first_or first node) s'
  unfolding write_from
  loop_next run_id fill fills first s s' node ran = rw ran refl

  loop_ends :
      (run_id : String) (fills : List BrokerFill) (first : Node) (s : Store)
      → All HasScalars fills
      → IsReady s
      → (s' : Store) × (loop run_id fills (some first) s
          ≡ some
              (ok (provenance_of run_id (some (fstring (first.label ∷ ":" ∷ first.key ∷ [])))), s'))
        × IsReady s'
  unfolding write_from
  loop_ends run_id [] first s scalar ready = (s, refl, ready)
  loop_ends run_id (fill ∷ fills) first s scalar ready =
      let (a, node, s1, ran, is_attempt, keyed, ready1, _, _) =
        written_fill fill s scalar.0 ready in
      let (s2, rest, ready2) = loop_ends run_id fills first s1 scalar.1 ready1 in
      (s2, loop_next run_id fill fills (some first) s s1 node ran ∙ rest, ready2)

  -- The graph node that a run's provenance names: none for no fills, and the attempt of the first one.
  abbrev pub Names : List BrokerFill → Store → Option String → Type 0
  Names [] s graph_node_id = graph_node_id ≡ none
  Names (fill ∷ fills) s graph_node_id =
      (a : FillAttempt) × IsAttemptOf fill s a
      × (graph_node_id ≡ some (fstring ("Fill" ∷ ":" ∷ a.key ∷ [])))

  -- Where ints have different texts, the graph is valid with fills of version 1 and the tolerance
  -- evidence is scalars, the write of a run's fills never raises, repeated keys included. The graph is
  -- again valid with fills of version 1, and the provenance names the first fill's attempt, if any.
  pub write_fills-Names :
      (run_id : String) (fills : List BrokerFill) (s : Store)
      → All HasScalars fills
      → IsReady s
      → (graph_node_id : Option String) × (s' : Store) × (write_fills number order_tolerance_props
            run_id fills order_set s
          ≡ some (ok (provenance_of run_id graph_node_id), s'))
        × Names fills s graph_node_id
        × IsReady s'
  unfolding write_fills write_from
  write_fills-Names run_id [] s scalar ready = (none, s, refl, refl, ready)
  write_fills-Names run_id (fill ∷ fills) s scalar ready =
      let (a, node, s1, ran, is_attempt, keyed, ready1, _, _) =
        written_fill fill s scalar.0 ready in
      let (s2, rest, ready2) = loop_ends run_id fills node s1 scalar.1 ready1 in
      (
        some (fstring (node.label ∷ ":" ∷ node.key ∷ [])),
        s2,
        loop_next run_id fill fills none s s1 node ran ∙ rest,
        (a, is_attempt, ap (λ k. some (fstring (k.0 ∷ ":" ∷ k.1 ∷ []))) keyed),
        ready2,
      )

  -- What a write leaves of a fill: the node of its first usable attempt, with all the attempt's props,
  -- which the provenance names.
  abbrev pub IsWritten : BrokerFill → Store → Option String → Store → Type 0
  IsWritten fill s graph_node_id s' =
      (a : FillAttempt) × (node : Node) × IsAttemptOf fill s a
      × (get ("Fill", a.key) s'.nodes ≡ some node)
      × Holds node.props a.props
      × (graph_node_id ≡ some (fstring ("Fill" ∷ ":" ∷ a.key ∷ [])))

  -- The same for one fill, with the node that the graph then has.
  pub write_one :
      (run_id : String) (fill : BrokerFill) (s : Store)
      → HasScalars fill
      → IsReady s
      → (graph_node_id : Option String) × (s' : Store) × (write_fills number order_tolerance_props
            run_id
            (fill ∷ [])
            order_set
            s
          ≡ some (ok (provenance_of run_id graph_node_id), s'))
        × IsWritten fill s graph_node_id s'
        × IsReady s'
  unfolding write_fills write_from
  write_one run_id fill s scalar ready =
      let (a, node, s1, ran, is_attempt, keyed, ready1, at, held) =
        written_fill fill s scalar ready in
      (
        some (fstring (node.label ∷ ":" ∷ node.key ∷ [])),
        s1,
        loop_next run_id fill [] none s s1 node ran,
        (a, node, is_attempt, at, held, ap (λ k. some (fstring (k.0 ∷ ":" ∷ k.1 ∷ []))) keyed),
        ready1,
      )
