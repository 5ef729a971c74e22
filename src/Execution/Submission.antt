-- ===== src/Execution/Submission.antt =====
-- The submission of an approved order set: agents/execution/run.py, with domain/orders.py,
-- domain/submit.py, domain/result.py, live_gate.py and the stage of store.py. The tolerance of an order
-- (order_tolerance.py, which computes with floats) is a parameter, and its evidence is left out of
-- orders and fills. A broker and a sink act on states of their own.
pub mod Submit
pub mod Run
pub mod Settled
use text.Mathlib.Text.{starts_with}
use trading_agents.Prelude.{
  ℕ, suc, ◌+◌, String, Bool, true, false, not, ◌&&◌, ◌==◌, Option, none, some, List, [], ◌∷◌, ◌++◌,
  map, elem, if◌then◌else◌, fstring, string_eq,
}
use trading_agents.Prelude.Dict.{Dict, get, put}
use trading_agents.Kernel.Graph.Value.{Value, str}
use trading_agents.Kernel.Graph.Store.{
  Node, Store, Error, value_error, Result, ok, raised, list_nodes, text_le,
}
use trading_agents.Kernel.Errors.{Exception, FaultSink, fault_from_exception}
use trading_agents.Execution.Money.{Side, buy, sell, Money}
use trading_agents.Execution.PaperBroker as Paper
use trading_agents.Execution.PaperBroker.{
  BrokerFill, Status, BrokerError, Reply, PaperBroker, day_limit,
}
use trading_agents.Execution.FillStore as FillStore
use trading_agents.Execution.FillStore.{Provenance}

pub data Action : Type 0 where
  buy_action sell_action hold_action : Action

-- `OrderIntent` of contracts/portfolio_manager.py, with what a submission reads of it.
pub record OrderIntent : Type 0 where
  pub ticker : String
  pub action : Action
  pub quantity : ℕ
  pub est_price : Money
  pub position_ref : Option String

pub record OrderIntentSet : Type 0 where
  pub run_id : String
  pub approved : List OrderIntent
  pub graph_node_id : Option String

pub record BrokerOrder : Type 0 where
  pub idempotency_key : String
  pub ticker : String
  pub side : Side
  pub quantity : ℕ
  pub limit_price : Money
  pub tolerance_bps : ℕ

-- `Fill` and `ExecutionResult` of contracts/execution.py.
pub record Fill : Type 0 where
  pub ticker : String
  pub side : Side
  pub quantity : ℕ
  pub price : Money
  pub broker_order_id : String
  pub status : Status

pub record ExecutionResult : Type 0 where
  pub run_id : String
  pub stage : String
  pub fills : List Fill
  pub submitted : ℕ
  pub rejected : ℕ
  pub dropped : ℕ
  pub skipped : ℕ
  pub provenance : Provenance

-- `_broker_side`
abbrev pub broker_side : Action → Result Side
broker_side buy_action = ok buy
broker_side sell_action = ok sell
broker_side hold_action = raised (value_error "execution can submit only buy or sell order intents")

abbrev side_text : Side → String
side_text buy = "buy"
side_text sell = "sell"

unfoldable pub order_key : String → OrderIntent → Side → String
order_key run_id intent buy = fstring (run_id ∷ ":" ∷ intent.ticker ∷ ":" ∷ "buy" ∷ [])
order_key run_id intent sell = elim intent.position_ref [
  | none ↦ fstring (run_id ∷ ":" ∷ intent.ticker ∷ ":" ∷ "sell" ∷ [])
  | some ref ↦ fstring ("exit:" ∷ ref ∷ ":" ∷ intent.ticker ∷ ":sell" ∷ [])
]

unfoldable pub fill_from_broker : BrokerFill → Fill
fill_from_broker fill = record {
  ticker = fill.ticker;
  side = fill.side;
  quantity = fill.quantity;
  price = fill.price;
  broker_order_id = fill.broker_order_id;
  status = fill.status;
}

unfoldable pub rejected_broker_fill : BrokerOrder → String → BrokerFill
rejected_broker_fill order reason = record {
  idempotency_key = order.idempotency_key;
  ticker = order.ticker;
  side = order.side;
  quantity = order.quantity;
  price = order.limit_price;
  broker_order_id = fstring ("rejected:" ∷ order.idempotency_key ∷ []);
  status = Status.rejected;
  reason = some reason;
  submitted_at = none;
  order_type = none;
  time_in_force = none;
  order_status = none;
  filled_quantity = none;
}

abbrev pub execution_run_id : String → String → String
execution_run_id head source_run_id = fstring ("execution-" ∷ head ∷ "-" ∷ source_run_id ∷ [])

-- `remember`
unfoldable pub remember : List BrokerFill → Dict String BrokerFill → Dict String BrokerFill
remember [] recorded = recorded
remember (fill ∷ fills) recorded = remember fills (put fill.idempotency_key fill recorded)

abbrev is_rejected : BrokerFill → Bool
is_rejected fill = elim fill.status [ Status.rejected ↦ true | _ ↦ false ]

-- `_is_dropped`
abbrev is_dropped : BrokerFill → Bool
is_dropped fill = elim fill.reason [ none ↦ false | some reason ↦ starts_with reason "dropped:" ]

abbrev count : (BrokerFill → Bool) → List BrokerFill → ℕ
count p [] = 0
count p (fill ∷ fills) = let rest = count p fills in if p fill then suc rest else rest

unfoldable pub execution_result :
    String → String → List BrokerFill → Provenance → ℕ → ExecutionResult
unfolding fill_from_broker
execution_result run_id stage fills provenance skipped = record {
  run_id = run_id;
  stage = stage;
  fills = map fill_from_broker fills;
  submitted = count (λ fill. not (is_rejected fill)) fills;
  rejected = count (λ fill. is_rejected fill && not (is_dropped fill)) fills;
  dropped = count is_dropped fills;
  skipped = skipped;
  provenance = provenance;
}
