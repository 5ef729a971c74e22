-- ===== src/Lib.antt =====
-- A verification library for the trading-agents fleet: agents that share an append-only provenance
-- graph, pull their work from it in a loop, and place orders through a broker.
--
-- Parts, with the code that each one models:
--
-- Prelude: shared names, Boolean tests and equality (Tests), lists over the native numbers (Lists),
--   integers (Int), and Python's `dict` as an association list in insertion order (Dict).
--
-- Kernel.Stop: kernel/stop.py. `StopSignal`, `request`, `seconds_since_request`, `seconds_left`,
--   `closing_steps`, `finish`, `end_loop`. A closing step is an operation on a world that may
--   raise.
--
-- Kernel.WorkLoop: kernel/work_loop.py, work_loop_policy.py, work_loop_state.py and
--   work_loop_quarantine.py. Policy has the retry envelope, State the ledger `WorkLoopState` with
--   `eligible_items`, `record_failure`, `record_success` and `next_ready_delay`, Run the pass
--   `run_once`, Loop the loop `work_loop`, Quarantine the sink `GraphQuarantineSink` over the
--   modelled graph. What the caller injects (the query, the work, the clock, the stop signal, the
--   sleep) is a record of operations on a world of any type. Times are whole seconds.
--
-- Kernel.Graph: kernel/graph.py, graph_support.py and graph_memory.py. Value has the property
--   values and `_frozen_value`, Chars the iteration of a text, Store the nodes, edges and
--   operations of `InMemoryGraphStore`, Walk its breadth-first `_walk` with `ancestors` and
--   `descendants`. An operation gives its result or exception and the store after it, with the
--   faults that `fault_boundary` recorded.
--
-- Kernel.Errors, Kernel.Envelope, Kernel.Bus: kernel/errors.py, envelope.py and bus.py. `contain`
--   is `fault_boundary` with `reraise=False`. `make_message` validates what it builds; `register`,
--   `request`, `subscribe` and `publish` are the ones of `InProcessBus`. Handlers act on a world of
--   any type and may raise; Replies is about one request, Registry about the registrations before
--   it.
--
-- Kernel.ServeLoop, Kernel.ClaimCheck: kernel/serve_loop.py and claim_check.py. `serve_once`
--   answers what a consumer polls through the bus; `claim_check_write` and `claim_check_read` join
--   the graph and the bus. Where pydantic raises, the error's text is the name of its model.
--
-- Kernel.Faults: kernel/fault_collapse.py and fault_graph.py. `GraphFaultSink` keeps the graph, its
--   windows and the state of its inner sink; `submit` and `flush` are its operations.
--
-- Kernel.EhloRetry: kernel/ehlo_retry.py and ehlo_settings.py. `send_with_retry` over a sender and
--   hooks on a world; Attempts records the sends. Times are whole microseconds.
--
-- Execution.Money, Execution.PaperBroker: agents/execution/broker.py, paper_broker.py,
--   paper_broker_math.py and paper_broker_orders.py. `submit`, `submit_stop`, `replace_stop`,
--   `cancel` are functions from the broker to a reply and the broker after it; Book has `positions`
--   and `account`. A decimal is a coefficient over a power of ten.
--
-- Execution.Deliberation: agents/execution/deliberation_gate.py, deliberation_posture.py, the head
--   of `execute_pm_node` in pm_execution.py, and contracts/run_posture.py. It reads the review of a
--   PMRun through `descendants` of the modelled graph. Reading a timestamp is a parameter, since it
--   is the standard library's.
--
-- Execution.Lifecycle: contracts/broker_lifecycle.py, the predicates on fills and broker orders.
--
-- Execution.FillAttempts, Execution.FillStore: agents/execution/fill_attempts.py and the fill
--   writes of store.py. `select_fill_attempt` searches the graph for a usable attempt of a broker
--   key, `write_fills` merges it and links its order. Chain has the attempts that are there. The
--   texts of ints, and of values, are parameters, and so are the tolerance props of a fill.
--
-- Execution.Submission, Execution.Reconcile: agents/execution/run.py, live_gate.py,
--   domain/orders.py, domain/submit.py, domain/result.py and domain/reconcile.py. Submit takes one
--   order to a broker port (`paper` is the one of the paper broker), Run has `run_submit` on a
--   world of graph, broker, sink and recorded fills.
--
-- Execution.StageFlow: agents/execution/stage_flow.py `promote_stage` with domain/stage_gate.py
--   (Flow), over the graph and the modelled bus. The rate of approvals is of any type.
--
-- Supervisor.Flags, Supervisor.Intent, Supervisor.Gate: agents/supervisor/store.py (messages,
--   flags, resolutions), agents/supervisor/domain/hard_no.py with matrix.py, and gate.py.
--   `dispatch_intent` gives its answer or the exception of the graph. The bus is a parameter: what
--   its two requests come back as.
--
-- Orchestration.ResumePlan: orchestration/resume_plan.py with the stages of contracts/resume.py.
--
-- Orchestration.RunHold: orchestration/scheduled_dispatch_gate.py `hold_unready_run`, with the
--   types of fleet_readiness.py. The readiness is an argument, as it may be in the code.
--
-- Tests: the theorems at concrete inputs.
--
-- How they interact: `run_submit` sends orders through the broker port, writes each fill as an
-- attempt into the graph under a fault boundary, and reads the graph for exits that are completed;
-- the bus answers under the same boundary, and `serve_once` serves it. The work loop is generic,
-- and its quarantine writes into the graph; the gate reads the graph before the broker is asked for
-- anything. An invariant of the graph (`IsValid` of Kernel.Graph.Edges) is kept by its writes and
-- is what the walk and the gate rely on; the ledger has its own (`IsValid` of
-- Kernel.WorkLoop.Ledger), kept by a pass.
--
-- Fuel: `work_loop` has no bound in the code when `max_iterations` is absent, so `rounds` runs on
-- fuel. With a cap of n passes n + 1 units are enough. `send_from` needs one unit for each attempt
-- that the settings allow, and `select_from` one for each node of the graph and one more, which
-- `write_fill` gives it. `doublings` of the rounded average has as much fuel as its target, which is
-- always reached. `serve_loop` runs until it is told to stop, on any fuel. Everything else
-- is structural recursion.
--
-- Numbers: the backoff multiplier of the work loop is a whole number here and its power has no
-- bound; in the code it is a float above 1, and a power above the largest float raises
-- OverflowError. The average cost of a holding is rounded from the nearest float, as in the code.
--
-- Not modelled: float property values, fractions of a second in the work loop, that OverflowError,
-- a quotient above the largest float, the 28-digit limit of the decimal context, the tolerance
-- evidence of an order (floats), the POSIX signal handler, the transports of the bus, the SQL
-- store, language-model clients, the other agents, and rendering.
pub mod Prelude
pub mod Kernel
pub mod Execution
pub mod Supervisor
pub mod Orchestration
pub mod Tests
