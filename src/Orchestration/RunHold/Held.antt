-- ===== src/Orchestration/RunHold/Held.antt =====
-- A run is held once, however often it is asked for (orchestration/scheduled_dispatch_gate.py).
use trading_agents.Prelude.{
  ℕ, ◌≡◌, refl, ap, ◌∙◌, String, Bool, ◌+◌, length, length-append, true, false, ◌==◌, ==_refl,
  Option, none, some, List, [], ◌∷◌, ◌++◌, filter, filter-append, arith, string_eq, pair_eq,
}
use trading_agents.Prelude.Dict.{get, put, get-put_self, put-put, values, values-put_new}
use trading_agents.Kernel.Graph.Value.{str, freeze, value_eq}
use trading_agents.Kernel.Graph.Store.{
  NodeKey, Node, Store, Result, merged_to, merge_at, merge_known, append_props, append_from,
  conflicts, ok, make_node, frozen_props, list_nodes, merge_node, has_text,
}
use trading_agents.Kernel.Graph.Fresh.{merge_new}
use trading_agents.Orchestration.RunHold.{
  Readiness, DispatchHold, is_active_run_hold, is_dispatchable, hold_state, first_active, holds_of,
  hold_props, hold_key, hold_with, hold_unready_run,
}

first_active-append :
    (nodes : List Node) (node : Node)
    → first_active nodes ≡ none
    → is_active_run_hold node ≡ true
    → first_active (nodes ++ node ∷ []) ≡ some node
unfolding first_active
first_active-append [] node none_active active = rw active refl
first_active-append (other ∷ nodes) node none_active active =
    ground (arith, first_active-append nodes node, none_active, active)

filter_kept : (p : Node → Bool) (node : Node) → p node ≡ true → filter p (node ∷ []) ≡ node ∷ []
filter_kept p node kept = rw kept refl

abbrev is_hold : Node → Bool
is_hold node = node.label == "RunHold"

first_inactive-append :
    (nodes : List Node) (node : Node)
    → first_active nodes ≡ none
    → is_active_run_hold node ≡ false
    → first_active (nodes ++ node ∷ []) ≡ none
unfolding first_active
first_inactive-append [] node none_active inactive = rw inactive refl
first_inactive-append (other ∷ nodes) node none_active inactive =
    ground (arith, first_inactive-append nodes node, none_active, inactive)

module _ (number : ℕ → String) (run_id : String) where
  -- A new hold of the run.
  abbrev new_hold : String → String → Readiness → String → Node
  unfolding make_node
  new_hold as_of now readiness key =
      make_node "RunHold" key (hold_props number run_id as_of now readiness) 1

  new_hold-active :
      (as_of now : String) (readiness : Readiness) (key : String)
      → (is_active_run_hold (new_hold as_of now readiness key) ≡ true)
        × ((new_hold as_of now readiness key).label ≡ "RunHold")
        × ((new_hold as_of now readiness key).key ≡ key)
        × (has_text "run_id" run_id (new_hold as_of now readiness key).props ≡ true)
  unfolding new_hold is_active_run_hold make_node frozen_props freeze get value_eq
  new_hold-active as_of now readiness key = (refl, refl, refl, ==_refl run_id)

  abbrev hold_at : String → NodeKey
  hold_at key = ("RunHold", key)

  -- The graph with one node under a hold's key.
  abbrev with_hold : Node → String → Store → Store
  with_hold node key graph = record graph { nodes = put (hold_at key) node graph.nodes }

  abbrev is_of_run : Node → Bool
  is_of_run node = has_text "run_id" run_id node.props

  -- The run's holds, with one more.
  holds_of-with_hold :
      (node : Node) (key : String) (graph : Store)
      → node.label ≡ "RunHold"
      → has_text "run_id" run_id node.props ≡ true
      → get (hold_at key) graph.nodes ≡ none
      → holds_of run_id (with_hold node key graph) ≡ holds_of run_id graph ++ node ∷ []
  unfolding holds_of list_nodes
  holds_of-with_hold node key graph label of_run new =
      let nodes = values graph.nodes in
      ap (λ ns. filter is_of_run (filter is_hold ns))
        (values-put_new (hold_at key) node graph.nodes new)
      ∙ (ap (filter is_of_run) (
            filter-append is_hold nodes (node ∷ [])
            ∙ ap (λ ns. filter is_hold nodes ++ ns) (filter_kept is_hold node (rw label refl)))
          ∙ (filter-append is_of_run (filter is_hold nodes) (node ∷ [])
              ∙ ap (λ ns. filter is_of_run (filter is_hold nodes) ++ ns)
                  (filter_kept is_of_run node of_run)))

  abbrev pub asked : String → String → Readiness → Store → Result (Option DispatchHold) × Store
  asked as_of now readiness graph = hold_unready_run number run_id as_of now readiness graph

  -- The answer for a run that is held under a key.
  abbrev pub answer : String → Readiness → Option DispatchHold
  answer key readiness =
      some (record {
        state = hold_state readiness.state;
        node_key = key;
        failures = readiness.failures;
      })

  asks_again :
      (as_of now : String) (readiness : Readiness) (graph : Store) (hold : Node)
      → is_dispatchable readiness.state ≡ false
      → first_active (holds_of run_id graph) ≡ some hold
      → asked as_of now readiness graph ≡ (ok (answer hold.key readiness), graph)
  unfolding hold_unready_run hold_with
  asks_again as_of now readiness graph hold unready active = rw (unready, active) refl

  asks_first :
      (as_of now : String) (readiness : Readiness) (graph : Store) (key : String)
      → is_dispatchable readiness.state ≡ false
      → first_active (holds_of run_id graph) ≡ none
      → hold_key number run_id as_of now readiness (holds_of run_id graph) ≡ key
      → get ("RunHold", key) graph.nodes ≡ none
      → asked as_of now readiness graph
        ≡ (ok (answer key readiness), with_hold (new_hold as_of now readiness key) key graph)
  unfolding hold_unready_run hold_with new_hold make_node
  asks_first as_of now readiness graph key unready inactive is_key new =
      let wrote =
        merge_new "RunHold" key (hold_props number run_id as_of now readiness) graph new in
      rw (unready, inactive, is_key, wrote) refl

  -- The hold of a key once it is released.
  abbrev released_hold : String → String → Readiness → String → String → Node
  unfolding make_node frozen_props
  released_hold as_of now readiness key released_at =
      make_node "RunHold" key
        (put "released_at" (str released_at)
          (frozen_props (hold_props number run_id as_of now readiness)))
        1

  released_hold-inactive :
      (as_of now : String) (readiness : Readiness) (key released_at : String)
      → (is_active_run_hold (released_hold as_of now readiness key released_at) ≡ false)
        × ((released_hold as_of now readiness key released_at).label ≡ "RunHold")
        × (has_text "run_id" run_id (released_hold as_of now readiness key released_at).props
            ≡ true)
  unfolding released_hold is_active_run_hold make_node frozen_props freeze get put value_eq
  released_hold-inactive as_of now readiness key released_at = (refl, refl, ==_refl run_id)

  release_appends :
      (as_of now : String) (readiness : Readiness) (key released_at : String)
      → append_props
          (new_hold as_of now readiness key).props
          (("released_at", str released_at) ∷ [])
        ≡ merged_to (
            put "released_at"
              (str released_at)
              (frozen_props (hold_props number run_id as_of now readiness)))
  unfolding append_props append_from conflicts new_hold make_node frozen_props freeze get
  release_appends as_of now readiness key released_at = refl

  version_one :
      (as_of now : String) (readiness : Readiness) (key : String)
      → (new_hold as_of now readiness key).schema_version ≡ 1
  unfolding new_hold make_node
  version_one as_of now readiness key = refl

  release_merged :
      (as_of now : String) (readiness : Readiness) (graph : Store) (key released_at : String)
      → merge_node "RunHold" key
          (("released_at", str released_at) ∷ [])
          1
          (with_hold (new_hold as_of now readiness key) key graph)
        ≡ (
          ok (released_hold as_of now readiness key released_at),
          with_hold (released_hold as_of now readiness key released_at) key graph,
        )
  unfolding merge_node merge_at merge_known released_hold make_node
  release_merged as_of now readiness graph key released_at =
      let old = new_hold as_of now readiness key in
      let new = released_hold as_of now readiness key released_at in
      rw
        (
          get-put_self (hold_at key) old graph.nodes,
          version_one as_of now readiness key,
          release_appends as_of now readiness key released_at,
        )
        (ap (λ nodes. (ok new, record graph { nodes = nodes }))
          (put-put (hold_at key) new old graph.nodes))

  -- A readiness that dispatches releases the hold that is active.
  asks_ready :
      (as_of now : String) (readiness : Readiness) (graph after : Store) (hold node : Node)
      → is_dispatchable readiness.state ≡ true
      → first_active (holds_of run_id graph) ≡ some hold
      → merge_node "RunHold" hold.key (("released_at", str now) ∷ []) 1 graph ≡ (ok node, after)
      → asked as_of now readiness graph ≡ (ok none, after)
  unfolding hold_unready_run
  asks_ready as_of now readiness graph after hold node ready active merged =
      rw (ready, active, merged) refl

  -- A run without an active hold is asked for while the fleet is not ready, the new hold's key being
  -- free. It is held under that key; asked for again while the fleet is not ready, it gets the same hold
  -- and the graph stays as it is; and once the fleet is ready it is let go, and no hold of it is active,
  -- with one hold more in the graph than at first.
  pub hold_unready_run-Held :
      (as_of now as_of2 now2 as_of3 now3 : String) (readiness readiness2 readiness3 : Readiness)
      (graph : Store) (key : String)
      → is_dispatchable readiness.state ≡ false
      → is_dispatchable readiness2.state ≡ false
      → is_dispatchable readiness3.state ≡ true
      → first_active (holds_of run_id graph) ≡ none
      → hold_key number run_id as_of now readiness (holds_of run_id graph) ≡ key
      → get ("RunHold", key) graph.nodes ≡ none
      → (held free : Store) × (asked as_of now readiness graph ≡ (ok (answer key readiness), held))
        × (asked as_of2 now2 readiness2 held ≡ (ok (answer key readiness2), held))
        × (asked as_of3 now3 readiness3 held ≡ (ok none, free))
        × (first_active (holds_of run_id free) ≡ none)
        × (length (holds_of run_id free) ≡ length (holds_of run_id graph) + 1)
  unfolding new_hold
  hold_unready_run-Held as_of now as_of2 now2 as_of3 now3 readiness readiness2 readiness3 graph key
        unready unready2 ready3 inactive is_key new =
      let hold = new_hold as_of now readiness key in
      let (is_active, label, key_same, of_run) = new_hold-active as_of now readiness key in
      let active =
        ap first_active (holds_of-with_hold hold key graph label of_run new)
        ∙ first_active-append (holds_of run_id graph) hold inactive is_active in
      let free_hold = released_hold as_of now readiness key now3 in
      let (is_inactive, label3, of_run3) = released_hold-inactive as_of now readiness key now3 in
      let one_more = holds_of-with_hold free_hold key graph label3 of_run3 new in
      (
        with_hold hold key graph,
        with_hold free_hold key graph,
        asks_first as_of now readiness graph key unready inactive is_key new,
        asks_again as_of2 now2 readiness2 (with_hold hold key graph) hold unready2 active
            ∙ ap (λ k. (ok (answer k readiness2), with_hold hold key graph)) key_same,
        asks_ready as_of3 now3 readiness3 (with_hold hold key graph) (with_hold free_hold key graph)
            hold free_hold ready3 active (release_merged as_of now readiness graph key now3),
        ap first_active one_more
            ∙ first_inactive-append (holds_of run_id graph) free_hold inactive is_inactive,
        ap length one_more ∙ length-append (holds_of run_id graph) (free_hold ∷ []),
      )
