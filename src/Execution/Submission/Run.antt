-- ===== src/Execution/Submission/Run.antt =====
-- agents/execution/run.py `run_submit`, with live_gate.py. A run that would be out of the fuel of its
-- writes is `none`.
use trading_agents.Prelude.{
  ℕ, ◌+◌, String, ◌||◌, ◌==◌, Option, none, some, List, [], ◌∷◌, ◌++◌, if◌then◌else◌, fstring,
  string_eq, map,
}
use trading_agents.Kernel.Graph.Store.{Node, Store, Result, ok, raised}
use trading_agents.Kernel.Errors.{FaultSink}
use trading_agents.Execution.PaperBroker.{BrokerFill}
use trading_agents.Execution.FillStore as FillStore
use trading_agents.Execution.FillStore.{Provenance, write_fills}
use trading_agents.Execution.Submission.{
  OrderIntent, OrderIntentSet, BrokerOrder, ExecutionResult, rejected_broker_fill, execution_run_id,
  remember, execution_result,
}
use trading_agents.Execution.Submission.Submit.{
  Broker, Environment, World, current_stage_from_graph, orders_of, completed_exit_fill, skip_fault,
  put_fault, submit_order,
}

-- What became of one order.
pub data Handled : Type 0 where
  skipped failed : Handled
  filled : BrokerFill → Provenance → Handled

-- The variables of the loop.
pub record Progress : Type 0 where
  pub fills : List BrokerFill
  pub skipped : ℕ
  pub provenance : Provenance

abbrev first_provenance : Provenance → Provenance → Provenance
first_provenance so_far new = elim so_far.graph_node_id [ none ↦ new | some id ↦ so_far ]

abbrev pub advance : Handled → Progress → Progress
advance skipped p = record p { skipped = p.skipped + 1 }
advance failed p = p
advance (filled fill provenance) p = record p {
  fills = p.fills ++ fill ∷ [];
  provenance = first_provenance p.provenance provenance;
}

abbrev pub set_of : OrderIntentSet → FillStore.OrderIntentSet
set_of order_set = record { run_id = order_set.run_id; graph_node_id = order_set.graph_node_id }

abbrev pub submit_run_id : OrderIntentSet → String
submit_run_id order_set = execution_run_id "submit" order_set.run_id

abbrev pub start : OrderIntentSet → Progress
start order_set = record {
  fills = [];
  skipped = 0;
  provenance = record {
    run_id = submit_run_id order_set;
    source_agent = "execution";
    graph_node_id = none;
  };
}

module _ (env : Environment) {B F : Type 0} (broker : Broker B) (sink : FaultSink F)
    (order_set : OrderIntentSet) where
  unfoldable pub write : List BrokerFill → Store → Option (Result Provenance × Store)
  unfolding write_fills
  write fills graph =
      write_fills env.number env.order_tolerance_props (submit_run_id order_set) fills
        (some (set_of order_set)) graph

  -- The end of the boundary around one order, once its fill was written.
  abbrev pub after_write :
      BrokerFill → Option (Result Provenance × Store) → World B F → Option (Handled × World B F)
  after_write fill none w = none
  after_write fill (some (ok provenance, graph)) w =
      some (filled fill provenance, record w { graph = graph })
  after_write fill (some (raised e, graph)) w = some (
    failed,
    record w {
      graph = graph;
      sink = put_fault env broker sink (env.graph_exception e) "agents.execution.run" w.sink;
    },
  )

  unfoldable pub write_of : BrokerFill × World B F → Option (Handled × World B F)
  unfolding write
  write_of (fill, w) = after_write fill (write (fill ∷ []) w.graph) w

  -- `_record_completed_exit_skip`
  abbrev pub skip : OrderIntent → Node → World B F → Option (Handled × World B F)
  skip intent prior_fill w =
      let (now, f) = sink.clock w.sink in
      some (skipped, record w { sink = sink.submit (skip_fault env intent prior_fill now) f })

  unfoldable pub handle :
      OrderIntent → BrokerOrder → Option Node → World B F → Option (Handled × World B F)
  unfolding write_of submit_order
  handle intent order (some prior_fill) w = skip intent prior_fill w
  handle intent order none w = write_of (submit_order env broker sink order w)

  abbrev pub and_then :
      Option (Handled × World B F)
      → Progress
      → (Progress → World B F → Option (Progress × World B F))
      → Option (Progress × World B F)
  and_then none p rest = none
  and_then (some (handled, w)) p rest = rest (advance handled p) w

  -- `for intent, order in zip(...):`
  unfoldable pub submit_all :
      List (OrderIntent × BrokerOrder) → Progress → World B F → Option (Progress × World B F)
  unfolding handle completed_exit_fill
  submit_all [] p w = some (p, w)
  submit_all ((intent, order) ∷ orders) p w =
      and_then (handle intent order (completed_exit_fill env w.graph intent order) w) p
        (submit_all orders)

  abbrev stage_rejected : String → OrderIntent × BrokerOrder → BrokerFill
  unfolding rejected_broker_fill
  stage_rejected stage pair =
      rejected_broker_fill pair.1 (fstring ("stage " ∷ stage ∷ " requires live broker gating" ∷ []))

  abbrev rejected_as :
      String
      → List BrokerFill
      → Option (Result Provenance × Store)
      → World B F
      → Option (Result ExecutionResult × World B F)
  unfolding execution_result
  rejected_as stage fills none w = none
  rejected_as stage fills (some (raised e, graph)) w = some (raised e, record w { graph = graph })
  rejected_as stage fills (some (ok provenance, graph)) w = some (
    ok (execution_result (submit_run_id order_set) stage fills provenance 0),
    record w { graph = graph },
  )

  unfoldable pub live_gate_rejected :
      String
      → List (OrderIntent × BrokerOrder)
      → World B F
      → Option (Result ExecutionResult × World B F)
  unfolding rejected_as stage_rejected write
  live_gate_rejected stage orders w =
      let fills = map (stage_rejected stage) orders in
      rejected_as stage fills (write fills w.graph) w

  unfoldable pub finish :
      String → Option (Progress × World B F) → Option (Result ExecutionResult × World B F)
  unfolding execution_result remember
  finish stage none = none
  finish stage (some (p, w)) = some (
    ok (execution_result (submit_run_id order_set) stage p.fills p.provenance p.skipped),
    record w { recorded = remember p.fills w.recorded },
  )

  unfoldable pub run_orders :
      String
      → Result (List (OrderIntent × BrokerOrder))
      → World B F
      → Option (Result ExecutionResult × World B F)
  unfolding submit_all live_gate_rejected finish
  run_orders stage (raised e) w = some (raised e, w)
  run_orders stage (ok orders) w =
      if stage == "paper" || stage == "broker_shadow"
      then finish stage (submit_all orders (start order_set) w)
      else live_gate_rejected stage orders w

  unfoldable pub run_submit : String → World B F → Option (Result ExecutionResult × World B F)
  unfolding orders_of run_orders current_stage_from_graph
  run_submit default_stage w =
      run_orders (current_stage_from_graph env w.graph default_stage)
        (orders_of env order_set.run_id order_set.approved) w
