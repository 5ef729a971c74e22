-- ===== src/Execution/Submission/Submit.antt =====
-- One order's way to the broker: agents/execution/domain/orders.py, domain/submit.py, the stage of
-- store.py and the helpers of run.py.
use trading_agents.Prelude.{
  ℕ, String, ◌==◌, Option, none, some, List, [], ◌∷◌, elem, if◌then◌else◌, fstring, string_eq,
}
use trading_agents.Prelude.Dict.{Dict, get}
use trading_agents.Kernel.Graph.Value.{Value, str}
use trading_agents.Kernel.Graph.Store.{
  Node, Props, Store, Error, Result, ok, raised, list_nodes, text_le,
}
use trading_agents.Kernel.Errors.{Exception, AgentFault, FaultSink, fault_from_exception, warning}
use trading_agents.Execution.Money.{Side}
use trading_agents.Execution.PaperBroker.{BrokerFill, BrokerError, Reply, PaperBroker, submit}
use trading_agents.Execution.Lifecycle.{is_completed_exit_fill}
use trading_agents.Execution.FillAttempts.Chain.{latest_fill_attempt}
use trading_agents.Execution.Submission.{
  OrderIntent, BrokerOrder, broker_side, order_key, rejected_broker_fill, sell_action, Action,
}

-- The port of a broker, on its state.
pub record Broker (B : Type 0) : Type 0 where
  pub submit : BrokerOrder → B → Reply × B

abbrev pub paper : Broker PaperBroker
unfolding submit
paper = record {
  submit = λ order b.
      submit order.idempotency_key order.ticker order.side order.quantity order.limit_price
        (some order.tolerance_bps) b;
}

-- The functions of Python's library and of modules that are not modelled.
pub record Environment : Type 0 where
  pub number : ℕ → String
  pub text_of : Value → String
  pub lower : String → String
  pub parse_digits : String → Option ℕ
  pub traceback_of : BrokerError → Option String
  pub graph_exception : Error → Exception
  pub applied_tolerance_bps : OrderIntent → Side → ℕ
  pub order_tolerance_props : BrokerFill → Props

pub record World (B F : Type 0) : Type 0 where
  pub graph : Store
  pub broker : B
  pub sink : F
  pub recorded : Dict String BrokerFill

-- `str(exc)` of a broker's exception.
abbrev pub error_text : BrokerError → String
error_text (BrokerError.broker_rejected fill) = elim fill.reason [
  | none ↦ "broker_rejected"
  | some reason ↦ if reason == "" then "broker_rejected" else reason
]
error_text (BrokerError.runtime_error text) = text
error_text (BrokerError.lookup_error text) = text

abbrev error_type : BrokerError → String
error_type (BrokerError.broker_rejected fill) = "BrokerRejectedError"
error_type (BrokerError.runtime_error text) = "RuntimeError"
error_type (BrokerError.lookup_error text) = "LookupError"

-- What becomes of a failed submission: the broker's own rejected fill, or a rejected outcome.
abbrev pub failed_fill : BrokerOrder → BrokerError → BrokerFill
failed_fill order (BrokerError.broker_rejected fill) = fill
failed_fill order e = rejected_broker_fill order (error_text e)

-- Where the current stage is kept: the last transition by its text, the first of equal ones.
abbrev latest_of : (Node → String) → Node → List Node → Node
latest_of moment best [] = best
latest_of moment best (node ∷ nodes) =
    latest_of moment (if text_le (moment node) (moment best) then best else node) nodes

abbrev stages : List String
stages = "paper" ∷ "broker_shadow" ∷ "live_manual" ∷ "live_autopilot" ∷ []

module _ (env : Environment) where
  abbrev prop_text : String → String → Node → String
  prop_text name default node = elim (get name node.props) [
    | none ↦ default
    | some v ↦ env.text_of v
  ]

  abbrev stage_from : List Node → String → String
  stage_from [] default = default
  stage_from (node ∷ nodes) default =
      let value =
        prop_text "to_stage" default (latest_of (prop_text "transitioned_at" "") node nodes) in
      if elem value stages then value else default

  unfoldable pub current_stage_from_graph : Store → String → String
  unfolding list_nodes
  current_stage_from_graph graph default = stage_from (list_nodes "StageTransition" graph) default

  unfoldable pub order_of : String → OrderIntent → Side → BrokerOrder
  unfolding order_key
  order_of run_id intent side = record {
    idempotency_key = order_key run_id intent side;
    ticker = intent.ticker;
    side = side;
    quantity = intent.quantity;
    limit_price = intent.est_price;
    tolerance_bps = env.applied_tolerance_bps intent side;
  }

  unfoldable pub with_side : String → OrderIntent → Result Side → Result BrokerOrder
  unfolding order_of
  with_side run_id intent (ok side) = ok (order_of run_id intent side)
  with_side run_id intent (raised e) = raised e

  unfoldable pub order_from_intent : String → OrderIntent → Result BrokerOrder
  unfolding with_side
  order_from_intent run_id intent = with_side run_id intent (broker_side intent.action)

  abbrev pub beside :
      OrderIntent
      → Result BrokerOrder
      → Result (List (OrderIntent × BrokerOrder))
      → Result (List (OrderIntent × BrokerOrder))
  beside intent (raised e) rest = raised e
  beside intent (ok order) (raised e) = raised e
  beside intent (ok order) (ok rest) = ok ((intent, order) ∷ rest)

  -- `orders`, each beside its intent.
  unfoldable pub orders_of : String → List OrderIntent → Result (List (OrderIntent × BrokerOrder))
  unfolding order_from_intent
  orders_of run_id [] = ok []
  orders_of run_id (intent ∷ approved) =
      beside intent (order_from_intent run_id intent) (orders_of run_id approved)

  -- `_completed_exit_fill`
  abbrev completed_or_none : Option Node → Option Node
  unfolding is_completed_exit_fill
  completed_or_none none = none
  completed_or_none (some fill) =
      if is_completed_exit_fill env.text_of env.lower fill then some fill else none

  abbrev prior_exit : Store → String → Action → Option String → Option Node
  unfolding latest_fill_attempt completed_or_none
  prior_exit graph key sell_action (some ref) =
      completed_or_none (latest_fill_attempt env.parse_digits graph key)
  prior_exit graph key action ref = none

  unfoldable pub completed_exit_fill : Store → OrderIntent → BrokerOrder → Option Node
  unfolding prior_exit
  completed_exit_fill graph intent order =
      prior_exit graph order.idempotency_key intent.action intent.position_ref

  -- The `AgentFault` of `_record_completed_exit_skip`, at a moment.
  abbrev pub skip_fault : OrderIntent → Node → ℕ → AgentFault
  skip_fault intent prior_fill now =
      let position_ref : String = elim intent.position_ref [
        | none ↦ "unknown"
        | some ref ↦ if ref == "" then "unknown" else ref
      ] in
      record {
        occurred_at = now;
        source_agent = "execution";
        source_module = "agents.execution.run";
        capability = some "skip_completed_exit";
        severity = warning;
        error_type = "CompletedExitReplaySkipped";
        message = fstring (
            "skipped completed exit for " ∷ intent.ticker ∷ " position_ref=" ∷ position_ref
            ∷ "; prior_fill_key=" ∷ prior_fill.key ∷ []);
        traceback = none;
        correlation_id = none;
        context =
            ("ticker", str intent.ticker)
            ∷ ("position_ref", str position_ref)
            ∷ ("prior_fill_key", str prior_fill.key)
            ∷ [];
      }

  module _ {B F : Type 0} (broker : Broker B) (sink : FaultSink F) where
    abbrev pub put_fault : Exception → String → F → F
    unfolding fault_from_exception
    put_fault exc module_name f =
        let (now, f1) = sink.clock f in
        sink.submit (fault_from_exception exc "execution" module_name (some "submit") now) f1

    abbrev exception_of : BrokerError → Exception
    exception_of e = record {
      type_name = error_type e;
      text = error_text e;
      traceback = env.traceback_of e;
    }

    -- `submit_order` past the call of the broker: its exception goes to the sink, then becomes a fill.
    unfoldable pub settled : BrokerOrder → Reply × B → World B F → BrokerFill × World B F
    unfolding put_fault
    settled order (Reply.done fill, b) w = (fill, record w { broker = b })
    settled order (Reply.raised e, b) w = (
      failed_fill order e,
      record w {
        broker = b;
        sink = put_fault (exception_of e) "agents.execution.domain.submit" w.sink;
      },
    )

    unfoldable pub submit_order : BrokerOrder → World B F → BrokerFill × World B F
    unfolding settled
    submit_order order w = settled order (broker.submit order w.broker) w
