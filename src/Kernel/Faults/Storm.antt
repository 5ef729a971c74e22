-- ===== src/Kernel/Faults/Storm.antt =====
-- An ongoing failure (kernel/fault_collapse.py, kernel/fault_graph.py).
use trading_agents.Prelude.{
  ℕ, ◌+◌, ◌≡◌, refl, sym, ap, ◌∙◌, String, true, none, some, List, [], ◌∷◌, length, All, arith,
  subst, string_eq, pair_eq,
}
use trading_agents.Prelude.Dict.{get, put, get-put_self}
use trading_agents.Kernel.Graph.Store.{Node, ok, make_node}
use trading_agents.Kernel.Graph.Fresh.{with_node, merge_new}
use trading_agents.Kernel.Errors.{AgentFault}
use trading_agents.Kernel.Faults.Collapse.{
  FaultCollapsePolicy, FaultWindow, occurrence_count, within_window, fault_signature,
}
use trading_agents.Kernel.Faults.{
  fault_node_key, fault_props, GraphFaultSink, first_window, write_first, counted, submit,
  submit_all,
}

module _ (isoformat : ℕ → String) (sha256 : String → String) {V : Type 0}
    (forward : AgentFault → V → V) (policy : FaultCollapsePolicy) where
  abbrev signature_key : AgentFault → String
  signature_key fault = (fault_signature isoformat sha256 fault).key

  -- The same failure again, inside of the window that the first one opened.
  abbrev pub IsDuplicateOf : AgentFault → AgentFault → Type 0
  IsDuplicateOf first fault =
      (signature_key fault ≡ signature_key first) × (within_window first fault policy ≡ true)

  -- Every fault in its order.
  abbrev pub forward_all : List AgentFault → V → V
  forward_all [] v = v
  forward_all (fault ∷ faults) v = forward_all faults (forward fault v)

  -- A window of a first fault that has counted so many duplicates.
  abbrev pub Counts : AgentFault → ℕ → GraphFaultSink isoformat sha256 V → Type 0
  Counts first n sink =
      (window : FaultWindow) × (get (signature_key first) sink.windows ≡ some window)
      × (window.first_fault ≡ first)
      × (window.suppressed_count ≡ n)

  -- The sink that has counted one more.
  abbrev counting :
      AgentFault
      → FaultWindow
      → GraphFaultSink isoformat sha256 V
      → GraphFaultSink isoformat sha256 V
  counting fault window sink = record sink {
    windows = put (signature_key fault) (counted isoformat sha256 fault window) sink.windows;
    inner = forward fault sink.inner;
  }

  submit_known :
      (fault : AgentFault) (window : FaultWindow) (sink : GraphFaultSink isoformat sha256 V)
      → get (signature_key fault) sink.windows ≡ some window
      → within_window window.first_fault fault policy ≡ true
      → submit isoformat sha256 forward policy fault sink ≡ (ok tt, counting fault window sink)
  unfolding submit
  submit_known fault window sink at inside = ground (arith, at, inside)

  duplicate-Counts :
      (first fault : AgentFault) (n : ℕ) (sink : GraphFaultSink isoformat sha256 V)
      → IsDuplicateOf first fault
      → Counts first n sink
      → (sink' : GraphFaultSink isoformat sha256 V) × (submit isoformat sha256 forward policy fault
            sink
          ≡ (ok tt, sink'))
        × (sink'.graph ≡ sink.graph)
        × (sink'.inner ≡ forward fault sink.inner)
        × Counts first (n + 1) sink'
  duplicate-Counts first fault n sink (same, inside) (window, at, first_is, count) =
      let here = ap (λ k. get k sink.windows) same ∙ at in
      let within = ap (λ f. within_window f fault policy) first_is ∙ inside in
      (
        counting fault window sink,
        submit_known fault window sink here within,
        refl,
        refl,
        (
          counted isoformat sha256 fault window,
          ap (λ k. get k (counting fault window sink).windows) (sym same)
              ∙ get-put_self (signature_key fault) (counted isoformat sha256 fault window)
                  sink.windows,
          first_is,
          ap (λ c. c + 1) count,
        ),
      )

  duplicates-Counts :
      (first : AgentFault) (faults : List AgentFault) (n : ℕ)
      (sink : GraphFaultSink isoformat sha256 V)
      → All (IsDuplicateOf first) faults
      → Counts first n sink
      → (sink' : GraphFaultSink isoformat sha256 V) × (submit_all isoformat sha256 forward policy
            faults sink
          ≡ (ok tt, sink'))
        × (sink'.graph ≡ sink.graph)
        × (sink'.inner ≡ forward_all faults sink.inner)
        × Counts first (n + length faults) sink'
  unfolding submit_all
  duplicates-Counts first [] n sink all counts =
      (sink, refl, refl, refl, subst (λ m. Counts first m sink) (omega arith) counts)
  duplicates-Counts first (fault ∷ faults) n sink all counts =
      let (s1, ran, graph, inner, counts1) = duplicate-Counts first fault n sink all.0 counts in
      let (s2, rest, graph2, inner2, counts2) =
        duplicates-Counts first faults (n + 1) s1 all.1 counts1 in
      (
        s2,
        rw ran rest,
        graph2 ∙ graph,
        inner2 ∙ ap (forward_all faults) inner,
        subst (λ m. Counts first m s2) (omega arith) counts2,
      )

  abbrev pub fault_node : AgentFault → Node
  fault_node fault =
      make_node "Fault" (fault_node_key isoformat sha256 fault) (fault_props isoformat sha256 fault)
        1

  -- The sink that has met a fault for the first time.
  abbrev opened : AgentFault → GraphFaultSink isoformat sha256 V → GraphFaultSink isoformat sha256 V
  opened fault sink = record {
    graph = with_node (fault_node fault) sink.graph;
    windows = put (signature_key fault) (first_window isoformat sha256 fault) sink.windows;
    inner = forward fault sink.inner;
  }

  submit_first :
      (fault : AgentFault) (sink : GraphFaultSink isoformat sha256 V)
      → get (signature_key fault) sink.windows ≡ none
      → get ("Fault", fault_node_key isoformat sha256 fault) sink.graph.nodes ≡ none
      → submit isoformat sha256 forward policy fault sink ≡ (ok tt, opened fault sink)
  unfolding submit write_first
  submit_first fault sink new_window new_node =
      let wrote =
        merge_new "Fault" (fault_node_key isoformat sha256 fault)
          (fault_props isoformat sha256 fault) sink.graph new_node in
      ground (arith, new_window, wrote)

  -- A failure that goes on inside of one window of a fault of a new signature, under a new node key:
  -- nothing is raised, the graph gains the node of the first fault and no other, every fault is
  -- forwarded in its order, and the window counts the first fault and each duplicate.
  pub storm-Counts :
      (first : AgentFault) (faults : List AgentFault) (sink : GraphFaultSink isoformat sha256 V)
      → get (signature_key first) sink.windows ≡ none
      → get ("Fault", fault_node_key isoformat sha256 first) sink.graph.nodes ≡ none
      → All (IsDuplicateOf first) faults
      → (sink' : GraphFaultSink isoformat sha256 V) × (submit_all isoformat sha256 forward policy
            (first ∷ faults)
            sink
          ≡ (ok tt, sink'))
        × (sink'.graph ≡ with_node (fault_node first) sink.graph)
        × (sink'.inner ≡ forward_all (first ∷ faults) sink.inner)
        × ((window : FaultWindow) × (get (signature_key first) sink'.windows ≡ some window)
            × (window.first_fault ≡ first)
            × (occurrence_count window ≡ length (first ∷ faults)))
  unfolding submit_all
  storm-Counts first faults sink new_window new_node all =
      let s1 = opened first sink in
      let ran = submit_first first sink new_window new_node in
      let counts : Counts first 0 s1 = (
        first_window isoformat sha256 first,
        get-put_self (signature_key first) (first_window isoformat sha256 first) sink.windows,
        refl,
        refl,
      ) in
      let (s2, rest, graph, inner, (window, at, is_first, count)) =
        duplicates-Counts first faults 0 s1 all counts in
      (s2, rw ran rest, graph, inner, (window, at, is_first, omega (arith, count)))
