-- ===== src/Execution/Submission/Settled.antt =====
-- No order of a run stops another one (agents/execution/run.py).
use trading_agents.Prelude.{
  ℕ, ◌+◌, ◌≡◌, refl, sym, ap, subst, ◌∙◌, String, ◌||◌, true, Option, none, some, List, [], ◌∷◌,
  length, length-append, arith, ◌==◌, string_eq,
}
use trading_agents.Kernel.Graph.Store.{Node, Store, ok}
use trading_agents.Kernel.Errors.{FaultSink}
use trading_agents.Execution.PaperBroker.{BrokerFill, Reply}
use trading_agents.Execution.FillAttempts.Written.{AllScalar}
use trading_agents.Execution.FillStore.Run.{IsReady, IsWritten, write_one}
use trading_agents.Execution.Submission.{
  OrderIntent, OrderIntentSet, BrokerOrder, execution_result, remember,
}
use trading_agents.Execution.Submission.Submit.{
  Broker, Environment, World, current_stage_from_graph, orders_of, completed_exit_fill,
  submit_order, settled,
}
use trading_agents.Execution.Submission.Run.{
  Handled, skipped, failed, filled, Progress, advance, start, set_of, submit_run_id, write,
  write_of, handle, and_then, submit_all, run_orders, finish, run_submit,
}

module _ (env : Environment) (injective : (i j : ℕ) → env.number i ≡ env.number j → i ≡ j)
    (scalar : (fill : BrokerFill) → AllScalar (env.order_tolerance_props fill)) {B F : Type 0}
    (broker : Broker B) (sink : FaultSink F) (order_set : OrderIntentSet) where
  abbrev pub Ready : World B F → Type 0
  Ready w = IsReady env.number injective env.order_tolerance_props (some (set_of order_set)) w.graph

  -- One fill, written from the first graph into the second.
  abbrev IsWrittenOf : BrokerFill → Store → Option String → Store → Type 0
  IsWrittenOf fill graph graph_node_id after =
      IsWritten env.number injective env.order_tolerance_props (some (set_of order_set)) fill graph
        graph_node_id after

  -- What the handling of an order does: an exit that is already completed never reaches the broker; any
  -- other order reaches it once, and the graph then has its fill.
  abbrev pub Does : OrderIntent → BrokerOrder → World B F → Handled → World B F → Type 0
  Does intent order w skipped w1 =
      (prior : Node) × (completed_exit_fill env w.graph intent order ≡ some prior)
      × (w1.graph ≡ w.graph)
      × (w1.broker ≡ w.broker)
  Does intent order w (filled fill provenance) w1 =
      (completed_exit_fill env w.graph intent order ≡ none)
      × (fill ≡ (submit_order env broker sink order w).0)
      × (w1.broker ≡ (broker.submit order w.broker).1)
      × IsWrittenOf fill w.graph provenance.graph_node_id w1.graph
  Does intent order w failed w1 = ⊥

  -- The orders, handled one after the other.
  abbrev pub Settled :
      List (OrderIntent × BrokerOrder) → Progress → World B F → Progress → World B F → Type 0
  Settled [] p w p' w' = (p' ≡ p) × (w' ≡ w)
  Settled ((intent, order) ∷ orders) p w p' w' =
      (handled : Handled) × (w1 : World B F) × Does intent order w handled w1
      × Settled orders (advance handled p) w1 p' w'

  settled-graph :
      (order : BrokerOrder) (reply : Reply × B) (w : World B F)
      → ((settled env broker sink order reply w).1.graph ≡ w.graph)
        × ((settled env broker sink order reply w).1.broker ≡ reply.1)
  unfolding settled
  settled-graph order (Reply.done fill, b) w = (refl, refl)
  settled-graph order (Reply.raised e, b) w = (refl, refl)

  submit_order-graph :
      (order : BrokerOrder) (w : World B F)
      → ((submit_order env broker sink order w).1.graph ≡ w.graph)
        × ((submit_order env broker sink order w).1.broker ≡ (broker.submit order w.broker).1)
  unfolding submit_order
  submit_order-graph order w = settled-graph order (broker.submit order w.broker) w

  handled :
      (intent : OrderIntent) (order : BrokerOrder) (w : World B F) (prior : Option Node)
      → completed_exit_fill env w.graph intent order ≡ prior
      → Ready w
      → (h : Handled) × (w1 : World B F) × (handle env broker sink order_set intent order prior w
          ≡ some (h, w1))
        × Does intent order w h w1
        × Ready w1
  unfolding handle write_of write
  handled intent order w (some fill) is_prior ready =
      (skipped, _, refl, (fill, is_prior, refl, refl), ready)
  handled intent order w none no_prior ready =
      let sent = submit_order env broker sink order w in
      let (graph_same, broker_same) = submit_order-graph order w in
      let ready1 : Ready sent.1 =
        subst (IsReady env.number injective env.order_tolerance_props (some (set_of order_set)))
          (sym graph_same) ready in
      let (id, graph, ran, is_written, ready2) =
        write_one env.number injective env.order_tolerance_props (some (set_of order_set))
          (submit_run_id order_set) sent.0 sent.1.graph (scalar sent.0) ready1 in
      (
        filled sent.0 (record {
          run_id = submit_run_id order_set;
          source_agent = "execution";
          graph_node_id = id;
        }),
        record sent.1 { graph = graph },
        rw ran refl,
        (
          no_prior,
          refl,
          broker_same,
          subst (λ g. IsWrittenOf sent.0 g id graph) graph_same is_written,
        ),
        ready2,
      )

  submit_next :
      (intent : OrderIntent) (order : BrokerOrder) (orders : List (OrderIntent × BrokerOrder))
      (p : Progress) (w w1 : World B F) (h : Handled)
      → handle env broker sink order_set intent order
          (completed_exit_fill env w.graph intent order)
          w
        ≡ some (h, w1)
      → submit_all env broker sink order_set ((intent, order) ∷ orders) p w
        ≡ submit_all env broker sink order_set orders (advance h p) w1
  unfolding submit_all
  submit_next intent order orders p w w1 h ran =
      ap
        (λ out.
          and_then env broker sink order_set out p (submit_all env broker sink order_set orders))
        ran

  -- One order more was handled: filled or skipped.
  counted :
      (intent : OrderIntent) (order : BrokerOrder) (w w1 : World B F) (p : Progress) (h : Handled)
      → Does intent order w h w1
      → length (advance h p).fills + (advance h p).skipped ≡ length p.fills + p.skipped + 1
  counted intent order w w1 p skipped does = omega arith
  counted intent order w w1 p (filled fill provenance) does =
      omega (arith, length-append p.fills (fill ∷ []))
  counted intent order w w1 p failed does = absurd does

  submit_all-Settled :
      (orders : List (OrderIntent × BrokerOrder)) (p : Progress) (w : World B F)
      → Ready w
      → (p' : Progress) × (w' : World B F) × (submit_all env broker sink order_set orders p w
          ≡ some (p', w'))
        × Settled orders p w p' w'
        × (length p'.fills + p'.skipped ≡ length p.fills + p.skipped + length orders)
        × Ready w'
  unfolding submit_all
  submit_all-Settled [] p w ready = (p, w, refl, (refl, refl), omega arith, ready)
  submit_all-Settled ((intent, order) ∷ orders) p w ready =
      let (h, w1, ran, does, ready1) = handled intent order w _ refl ready in
      let (p', w', rest, settled_rest, count, ready2) =
        submit_all-Settled orders (advance h p) w1 ready1 in
      (
        p',
        w',
        submit_next intent order orders p w w1 h ran ∙ rest,
        (h, w1, does, settled_rest),
        omega (arith, count, counted intent order w w1 p h does),
        ready2,
      )

  -- At a stage that is safe for paper, over a valid graph with fills of version 1, and where every
  -- approved intent is an order: the run returns, and its result counts each approved order as a fill or
  -- a skip. The orders were handled in their order, whatever the broker raised for one of them: a
  -- completed exit never reached the broker, any other order reached it once. For its fill, the broker's or the
  -- rejected outcome of its exception, the graph then had the node of the fill's first usable attempt,
  -- with all its props, which its provenance names; all these fills are remembered.
  pub run_submit-Settled :
      (default_stage : String) (orders : List (OrderIntent × BrokerOrder)) (w : World B F)
      → Ready w
      → ((current_stage_from_graph env w.graph default_stage == "paper")
          || (current_stage_from_graph env w.graph default_stage == "broker_shadow"))
        ≡ true
      → orders_of env order_set.run_id order_set.approved ≡ ok orders
      → (p : Progress) × (w' : World B F) × (run_submit env broker sink order_set default_stage w
          ≡ some (
            ok (
                execution_result
                  (submit_run_id order_set)
                  (current_stage_from_graph env w.graph default_stage)
                  p.fills
                  p.provenance
                  p.skipped),
            record w' { recorded = remember p.fills w'.recorded },
          ))
        × Settled orders (start order_set) w p w'
        × (length p.fills + p.skipped ≡ length orders)
        × Ready w'
  unfolding run_submit run_orders finish
  run_submit-Settled default_stage orders w ready safe built =
      let (p, w', ran, settled_all, count, ready') =
        submit_all-Settled orders (start order_set) w ready in
      (p, w', rw (built, safe, ran) refl, settled_all, omega (arith, count), ready')
