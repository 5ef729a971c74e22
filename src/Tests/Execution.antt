-- ===== src/Tests/Execution.antt =====
-- The paper broker and the deliberation gate on two orders.
use trading_agents.Prelude.{
  ℕ, ◌+◌, ◌≡◌, ◌⊎◌, refl, String, true, false, Option, none, some, List, [], ◌∷◌, length, arith,
  string_eq, pair_eq,
}
use trading_agents.Prelude.Dict.{get, put}
use trading_agents.Kernel.Graph.Value.{freeze, str}
use trading_agents.Kernel.Graph.Store.{
  Node, Store, empty_store, merge_node, merge_at, make_node, frozen_props,
}
use trading_agents.Kernel.Graph.Edges.{IsValid, merge_node-IsValid}
use trading_agents.Execution.Money.{buy, sell, Money, cents, paper_price, within_tolerance}
use trading_agents.Execution.PaperBroker.{
  BrokerFill, PaperBroker, pending, day_limit, submit_new, replace_stop, submit, is_open, cancel,
}
use trading_agents.Execution.PaperBroker.Replay.{
  Call, order, stop, place_call, after_calls, submit_idempotent,
}
use trading_agents.Execution.PaperBroker.Accounting.{KeepsBook, submit_unexecuted}
use trading_agents.Execution.PaperBroker.Replacement.{Replaces, replace_stop-Replaces}
use trading_agents.Execution.PaperBroker.Orders.{IsKeyed, KeepsSettled, submit_keeps, cancel_exact}
use trading_agents.Execution.Deliberation.{
  OrderIntent, OrderIntentSet, Answer, answer, DeliberationStatus, applied, proceeded_unvetoed,
  DeliberationPosture, advisory, binding, deliberated_edge, linked_deliberation, has_buy,
  is_degraded_run, is_grace_over, holds_buys, vetoed_of, is_hashable, is_vetoed,
  apply_deliberation_posture, Plan, plan,
}
use trading_agents.Execution.Deliberation as Gate
use trading_agents.Execution.Deliberation.Posture.{others}
use trading_agents.Execution.Deliberation.Unreviewed.{unreviewed_plan}

abbrev broker : PaperBroker
broker = record {
  stop_order_status = "new";
  slippage_bps = 5;
  order_price_tolerance_bps = 50;
  reject_tickers = "BAD" ∷ [];
  initial_cash_cents = 100000;
  fills = [];
  cancelled = [];
}

abbrev ten_dollars : Money
ten_dollars = cents 1000 "USD"

abbrev first_call : Call
first_call = order "k" "BAD" buy 3 ten_dollars none

abbrev again_call : Call
again_call = stop "k" "AAPL" sell 4 ten_dollars "day"

abbrev between_calls : List Call
between_calls =
    order "k3" "AAPL" buy 1 ten_dollars none ∷ stop "k4" "BAD" sell 1 ten_dollars "gtc" ∷ []

submit_idempotent_example :
    let (reply, b1) = place_call first_call broker in
    let c = after_calls between_calls b1 in place_call again_call c ≡ (reply, c)
submit_idempotent_example = submit_idempotent first_call again_call between_calls broker refl

broker-IsKeyed : IsKeyed broker
unfolding get
broker-IsKeyed = record { at_key = λ key fill h. ground (arith, h) }

submit_keeps_example :
    let after = (submit "k" "AAPL" buy 3 ten_dollars none broker).1 in
    IsKeyed after × KeepsSettled broker after
submit_keeps_example = submit_keeps "k" "AAPL" buy 3 broker ten_dollars none broker-IsKeyed

abbrev resting : BrokerFill
resting = day_limit "k" "AAPL" sell 3 ten_dollars pending none

abbrev with_resting : PaperBroker
with_resting = record broker { fills = ("k", resting) ∷ [] }

cancel_exact_example :
    (fill' : BrokerFill) × (get "k" (cancel "paper:k" with_resting).fills ≡ some fill')
    × (is_open "paper:k" fill' ≡ false)
    × (is_open "paper:k" resting ≡ false → fill' ≡ resting)
unfolding get
cancel_exact_example = cancel_exact "paper:k" "k" resting with_resting refl

-- The gate, where every text names the moment 0.
abbrev read_time : String → Option ℕ
read_time text = some 0

abbrev buys : OrderIntent
buys = record { ticker = "AAPL"; action = Gate.buy; quantity = 3; est_price = ten_dollars }

abbrev sells : OrderIntent
sells = record { ticker = "MSFT"; action = Gate.sell; quantity = 2; est_price = ten_dollars }

abbrev orders : OrderIntentSet
orders = record { run_id = "run-1"; approved = buys ∷ sells ∷ [] }

abbrev pm_run : Node
pm_run = record {
  label = "PMRun";
  key = "run-1";
  props = ("created_at", str "2026-01-01T00:00:00+00:00") ∷ [];
  schema_version = 1;
}

abbrev with_run : Store
with_run = record { nodes = (("PMRun", "run-1"), pm_run) ∷ []; edges = []; faults = [] }

run-IsValid : IsValid with_run
unfolding merge_node merge_at get put make_node frozen_props freeze
run-IsValid =
    merge_node-IsValid "PMRun" "run-1" pm_run.props 1 empty_store with_run pm_run refl
      (record { keyed = λ k node h. ground (arith, h); joined = tt; distinct = tt })

unreviewed_plan_example :
    (p : Plan) × (plan read_time 2000000000 900 binding pm_run orders with_run
      ≡ (answer p, with_run))
    × (others p.filtered.order_set.approved ≡ others orders.approved)
    × (length p.filtered.order_set.approved + p.filtered.blocked_count ≡ length orders.approved)
    × (has_buy p.filtered.order_set ≡ true
        → (p.filtered.order_set ≡ orders)
          × (is_degraded_run orders with_run ≡ false)
          × ((binding ≡ advisory) ⊎ (is_grace_over read_time 2000000000 900 pm_run ≡ false)))
unreviewed_plan_example =
    unreviewed_plan pm_run with_run run-IsValid refl read_time 2000000000 900 binding orders

submit_unexecuted_example : KeepsBook broker (submit "k" "AAPL" buy 3 ten_dollars (some 1) broker).1
unfolding submit submit_new get paper_price within_tolerance
submit_unexecuted_example = submit_unexecuted "k" "AAPL" buy 3 ten_dollars (some 1) broker refl

abbrev old_stop : BrokerFill
old_stop = record resting { order_type = some "stop"; order_status = some "new" }

abbrev with_stop : PaperBroker
with_stop = record broker { fills = ("k", old_stop) ∷ [] }

replace_stop-Replaces_example :
    Replaces "paper:k" "k2" 950 with_stop (replace_stop "paper:k" 950 "k2" with_stop)
replace_stop-Replaces_example = replace_stop-Replaces "paper:k" 950 "k2" with_stop
