-- ===== src/Execution/PaperBroker.antt =====
-- The paper broker: agents/execution/paper_broker.py, paper_broker_orders.py and the types of
-- broker.py. A call gives its fill or the exception that it raises, and the broker after it. The
-- tolerance evidence of a fill, which this broker never sets, is left out.
pub mod Book
pub mod Replay
pub mod Orders
pub mod Accounting
pub mod Replacement
use trading_agents.Prelude.{
  ℕ, String, Bool, true, false, not, ◌&&◌, Option, none, some, List, [], ◌∷◌, ◌++◌, Eq, ◌==◌, ◌≡◌,
  ◌↔◌, arith, elem, if◌then◌else◌, fstring, string_eq,
}
use trading_agents.Prelude.Dict.{Dict, get, put, values}
use trading_agents.Execution.Money.{Side, buy, sell, Money, cents, paper_price, within_tolerance}

pub data Status : Type 0 where
  filled partial rejected pending : Status

abbrev pub is_pending : Status → Bool
is_pending pending = true
is_pending _ = false

pub record BrokerFill : Type 0 where
  pub idempotency_key : String
  pub ticker : String
  pub side : Side
  pub quantity : ℕ
  pub price : Money
  pub broker_order_id : String
  pub status : Status
  pub reason : Option String
  pub submitted_at : Option String
  pub order_type : Option String
  pub time_in_force : Option String
  pub order_status : Option String
  pub filled_quantity : Option ℕ

pub data BrokerError : Type 0 where
  broker_rejected : BrokerFill → BrokerError
  runtime_error lookup_error : String → BrokerError

pub data Reply : Type 0 where
  done : BrokerFill → Reply
  raised : BrokerError → Reply

pub record PaperBroker : Type 0 where
  pub stop_order_status : String
  pub slippage_bps : ℕ
  pub order_price_tolerance_bps : ℕ
  pub reject_tickers : List String
  pub initial_cash_cents : ℕ
  pub fills : Dict String BrokerFill
  pub cancelled : List String

abbrev quantity_where_executed : Status → ℕ → ℕ
quantity_where_executed filled quantity = quantity
quantity_where_executed partial quantity = quantity
quantity_where_executed _ quantity = 0

-- `executed_quantity` of broker.py.
unfoldable pub executed_quantity : BrokerFill → ℕ
executed_quantity fill = elim fill.filled_quantity [
  | some n ↦ n
  | none ↦ quantity_where_executed fill.status fill.quantity
]

abbrev pub order_id : String → String
order_id idempotency_key = fstring ("paper:" ∷ idempotency_key ∷ [])

-- The fill that every branch of a submission builds, but for its price, its status and its reason.
abbrev pub day_limit : String → String → Side → ℕ → Money → Status → Option String → BrokerFill
day_limit idempotency_key ticker side quantity price status reason = record {
  idempotency_key = idempotency_key;
  ticker = ticker;
  side = side;
  quantity = quantity;
  price = price;
  broker_order_id = order_id idempotency_key;
  status = status;
  reason = reason;
  submitted_at = none;
  order_type = some "limit";
  time_in_force = some "day";
  order_status = none;
  filled_quantity = none;
}

abbrev record_fill : String → BrokerFill → Reply → PaperBroker → Reply × PaperBroker
record_fill key fill reply b = (reply, record b { fills = put key fill b.fills })

-- `replay_order`.
abbrev replay_as : Status → BrokerFill → Reply
replay_as rejected fill = raised (broker_rejected fill)
replay_as _ fill = done fill

unfoldable pub replay_order : BrokerFill → Reply
replay_order fill = replay_as fill.status fill

-- `reject_order`: the rejection is recorded under its key, then raised.
unfoldable pub reject_order : String → String → Side → ℕ → Money → PaperBroker → Reply × PaperBroker
reject_order key ticker side quantity price b =
    let fill = day_limit key ticker side quantity price rejected (some "paper_broker_rejected") in
    record_fill key fill (raised (broker_rejected fill)) b

abbrev pub tolerance_of : Option ℕ → PaperBroker → ℕ
tolerance_of none b = b.order_price_tolerance_bps
tolerance_of (some bps) b = bps

-- `submit` of a key that is not known.
unfoldable pub submit_new :
    String → String → Side → ℕ → Money → Option ℕ → PaperBroker → Reply × PaperBroker
unfolding reject_order
submit_new key ticker side quantity limit_price tolerance_bps b =
    let price = paper_price limit_price side b.slippage_bps in
    let outside =
      day_limit key ticker side quantity limit_price pending
        (some "outside_order_price_tolerance") in
    let inside = day_limit key ticker side quantity price filled none in
    if elem ticker b.reject_tickers
    then reject_order key ticker side quantity limit_price b
    else if not (within_tolerance limit_price price side (tolerance_of tolerance_bps b))
    then record_fill key outside (done outside) b
    else record_fill key inside (done inside) b

unfoldable pub submit :
    String → String → Side → ℕ → Money → Option ℕ → PaperBroker → Reply × PaperBroker
unfolding submit_new replay_order
submit key ticker side quantity limit_price tolerance_bps b = elim (get key b.fills) [
  | some current ↦ (replay_order current, b)
  | none ↦ submit_new key ticker side quantity limit_price tolerance_bps b
]

unfoldable pub submit_stop :
    String → String → Side → ℕ → Money → String → PaperBroker → Reply × PaperBroker
unfolding reject_order replay_order
submit_stop key ticker side quantity stop_price tif b =
    let resting = record (day_limit key ticker side quantity stop_price pending none) {
      order_type = some "stop";
      time_in_force = some tif;
      order_status = some b.stop_order_status;
    } in
    elim (get key b.fills) [
      | some current ↦ (replay_order current, b)
      | none ↦
          if elem ticker b.reject_tickers
          then reject_order key ticker side quantity stop_price b
          else record_fill key resting (done resting) b
    ]

-- `fill.broker_order_id == broker_order_id and fill.status == "pending"`
abbrev pub is_open : String → BrokerFill → Bool
is_open broker_order_id fill = fill.broker_order_id == broker_order_id && is_pending fill.status

-- The entry at which the loop of `replace_stop_order` stops.
unfoldable pub find_open : String → Dict String BrokerFill → Option (String × BrokerFill)
find_open broker_order_id [] = none
find_open broker_order_id ((key, fill) ∷ fills) =
    if is_open broker_order_id fill then some (key, fill) else find_open broker_order_id fills

-- `old.order_status != "new"`
abbrev pub is_replaceable : BrokerFill → Bool
is_replaceable fill = elim fill.order_status [ none ↦ false | some status ↦ status == "new" ]

abbrev pub moved_stop : String → ℕ → BrokerFill → BrokerFill
moved_stop idempotency_key stop_price_cents old = record old {
  idempotency_key = idempotency_key;
  price = cents stop_price_cents "USD";
  broker_order_id = order_id idempotency_key;
}

abbrev pub replaced_stop : BrokerFill → BrokerFill
replaced_stop old = record old {
  status = rejected;
  reason = some "replaced";
  order_status = some "replaced";
}

abbrev status_text : Option String → String
status_text none = "None"
status_text (some status) = status

abbrev not_replaceable : BrokerFill → BrokerError
not_replaceable old =
    runtime_error
      (fstring ("422 cannot replace order in " ∷ status_text old.order_status ∷ " status" ∷ []))

unfoldable pub replace_stop : String → ℕ → String → PaperBroker → Reply × PaperBroker
unfolding find_open
replace_stop broker_order_id stop_price_cents idempotency_key b =
    elim (find_open broker_order_id b.fills) [
      | none ↦ (raised (lookup_error (fstring ("no open paper order " ∷ broker_order_id ∷ []))), b)
      | some (key, old) ↦
          if is_replaceable old
          then (let new = moved_stop idempotency_key stop_price_cents old in
              (
                done new,
                record b { fills = put idempotency_key new (put key (replaced_stop old) b.fills) },
              ))
          else (raised (not_replaceable old), b)
    ]

-- One entry of the loop of `cancel`.
abbrev pub cancel_fill : String → BrokerFill → BrokerFill
cancel_fill broker_order_id fill =
    if is_open broker_order_id fill
    then record fill { status = rejected; reason = some "canceled" }
    else fill

cancel_fills : String → Dict String BrokerFill → Dict String BrokerFill
cancel_fills broker_order_id [] = []
cancel_fills broker_order_id ((key, fill) ∷ fills) =
    (key, cancel_fill broker_order_id fill) ∷ cancel_fills broker_order_id fills

unfoldable pub cancel : String → PaperBroker → PaperBroker
unfolding cancel_fills
cancel broker_order_id b = record b {
  fills = cancel_fills broker_order_id b.fills;
  cancelled =
      if elem broker_order_id b.cancelled then b.cancelled else b.cancelled ++ broker_order_id ∷ [];
}
