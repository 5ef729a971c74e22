-- ===== src/Kernel/Faults.antt =====
-- kernel/fault_collapse.py and kernel/fault_graph.py: the sink that writes faults into the graph and
-- collapses an ongoing failure into its first fault and a summary. `isoformat` and `sha256` are those
-- of Python's library; the inner sink acts on a world of any type.
pub mod Collapse
pub mod Storm
use trading_agents.Prelude.{
  ℕ, zero, suc, ◌+◌, ◌*◌, ◌-◌, String, Bool, true, false, not, ◌&&◌, Option, none, some, List, [],
  ◌∷◌, ◌==◌, leb, if◌then◌else◌, fstring, string_eq, nat_eq,
}
use trading_agents.Prelude.Int.{pos}
use trading_agents.Prelude.Dict.{Dict, get, put, pop, keys}
use trading_agents.Kernel.Graph.Value.{Value, null, num, str, dict, Fields, end, field}
use trading_agents.Kernel.Graph.Store.{Node, Props, Error, Store, Result, ok, raised, merge_node}
use trading_agents.Kernel.Errors.{Severity, info, warning, error, critical, AgentFault}
use trading_agents.Kernel.Faults.Collapse.{
  FaultCollapsePolicy, FaultSignature, FaultWindow, occurrence_count, capability_or_none, optional,
  within_window, fault_signature, suppression_key, suppression_props,
}

abbrev severity_text : Severity → String
severity_text info = "info"
severity_text warning = "warning"
severity_text error = "error"
severity_text critical = "critical"

abbrev fields_of : Props → Fields
fields_of [] = end
fields_of ((name, value) ∷ props) = field name value (fields_of props)

module _ (isoformat : ℕ → String) (sha256 : String → String) where
  abbrev pub fault_node_key : AgentFault → String
  fault_node_key fault = fstring (
      "fault:"
      ∷ fault.source_agent
      ∷ ":"
      ∷ fault.source_module
      ∷ ":"
      ∷ capability_or_none fault.capability
      ∷ ":"
      ∷ isoformat fault.occurred_at
      ∷ [])

  -- `_fault_props`
  abbrev pub fault_props : AgentFault → Props
  fault_props fault =
      ("source_agent", str fault.source_agent)
      ∷ ("source_module", str fault.source_module)
      ∷ ("capability", optional fault.capability)
      ∷ ("severity", str (severity_text fault.severity))
      ∷ ("error_type", str fault.error_type)
      ∷ ("message", str fault.message)
      ∷ ("traceback", optional fault.traceback)
      ∷ ("correlation_id", optional fault.correlation_id)
      ∷ ("context", dict (fields_of fault.context))
      ∷ ("occurred_at", str (isoformat fault.occurred_at))
      ∷ ("status", str "pending")
      ∷ []

  pub record GraphFaultSink (V : Type 0) : Type 0 where
    pub graph : Store
    pub windows : Dict String FaultWindow
    pub inner : V

  -- The window that a first occurrence opens.
  abbrev pub first_window : AgentFault → FaultWindow
  unfolding fault_signature
  first_window fault = record {
    signature = fault_signature isoformat sha256 fault;
    first_fault = fault;
    first_fault_key = fault_node_key fault;
    suppressed_count = 0;
    last_seen_at = some (isoformat fault.occurred_at);
  }

  -- A duplicate inside of the window.
  abbrev pub counted : AgentFault → FaultWindow → FaultWindow
  counted fault window = record window {
    suppressed_count = window.suppressed_count + 1;
    last_seen_at = some (isoformat fault.occurred_at);
  }

  module _ {V : Type 0} where
    -- The sink after a write to its graph.
    abbrev pub with_graph :
        GraphFaultSink V → Result Node × Store → Result (Unit {0}) × GraphFaultSink V
    with_graph sink (ok node, s) = (ok tt, record sink { graph = s })
    with_graph sink (raised e, s) = (raised e, record sink { graph = s })

    -- What follows where nothing was raised.
    abbrev pub and_then :
        Result (Unit {0}) × GraphFaultSink V
        → (GraphFaultSink V → Result (Unit {0}) × GraphFaultSink V)
        → Result (Unit {0}) × GraphFaultSink V
    and_then (ok done, sink) f = f sink
    and_then (raised e, sink) f = (raised e, sink)

    abbrev pub summarize : FaultWindow → GraphFaultSink V → Result (Unit {0}) × GraphFaultSink V
    summarize window sink =
        if window.suppressed_count == 0
        then (ok tt, sink)
        else with_graph sink (
            merge_node "FaultSuppression" (suppression_key isoformat sha256 window)
              (suppression_props isoformat sha256 window) 1 sink.graph)

    -- `_flush`: the window is gone before its summary is written.
    unfoldable pub flush_window : String → GraphFaultSink V → Result (Unit {0}) × GraphFaultSink V
    flush_window key sink = elim (get key sink.windows) [
      | none ↦ (raised (Error.key_error (fstring ("'" ∷ key ∷ "'" ∷ []))), sink)
      | some window ↦ summarize window (record sink { windows = pop key sink.windows })
    ]

    abbrev pub open_window : AgentFault → GraphFaultSink V → Result (Unit {0}) × GraphFaultSink V
    open_window fault sink = (
      ok tt,
      record sink {
        windows =
            put (fault_signature isoformat sha256 fault).key (first_window fault) sink.windows;
      },
    )

    -- `_write_first`
    unfoldable pub write_first :
        AgentFault → GraphFaultSink V → Result (Unit {0}) × GraphFaultSink V
    unfolding fault_signature
    write_first fault sink =
        and_then
          (with_graph sink
            (merge_node "Fault" (fault_node_key fault) (fault_props fault) 1 sink.graph))
          (open_window fault)

    -- `for signature_key in tuple(self._windows)`
    unfoldable pub flush_all : List String → GraphFaultSink V → Result (Unit {0}) × GraphFaultSink V
    unfolding flush_window
    flush_all [] sink = (ok tt, sink)
    flush_all (key ∷ signature_keys) sink =
        and_then (flush_window key sink) (flush_all signature_keys)

    unfoldable pub flush : GraphFaultSink V → Result (Unit {0}) × GraphFaultSink V
    unfolding flush_all
    flush sink = flush_all (keys sink.windows) sink

    module _ (forward : AgentFault → V → V) (policy : FaultCollapsePolicy) where
      abbrev pub forwarded : AgentFault → GraphFaultSink V → Result (Unit {0}) × GraphFaultSink V
      forwarded fault sink = (ok tt, record sink { inner = forward fault sink.inner })

      abbrev pub keep_counting :
          AgentFault → FaultWindow → GraphFaultSink V → Result (Unit {0}) × GraphFaultSink V
      unfolding fault_signature
      keep_counting fault window sink = forwarded fault (record sink {
        windows =
            put (fault_signature isoformat sha256 fault).key (counted fault window) sink.windows;
      })

      unfoldable pub submit : AgentFault → GraphFaultSink V → Result (Unit {0}) × GraphFaultSink V
      unfolding fault_signature within_window keep_counting write_first flush_window
      submit fault sink =
          let key = (fault_signature isoformat sha256 fault).key in
          elim (get key sink.windows) [
            | none ↦ and_then (write_first fault sink) (forwarded fault)
            | some window ↦
                if within_window window.first_fault fault policy
                then keep_counting fault window sink
                else and_then (flush_window key sink)
                    (λ flushed. and_then (write_first fault flushed) (forwarded fault))
          ]

      -- Faults in their order, while nothing is raised.
      unfoldable pub submit_all :
          List AgentFault → GraphFaultSink V → Result (Unit {0}) × GraphFaultSink V
      unfolding submit
      submit_all [] sink = (ok tt, sink)
      submit_all (fault ∷ faults) sink = and_then (submit fault sink) (submit_all faults)
