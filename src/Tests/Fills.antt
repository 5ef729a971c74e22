-- ===== src/Tests/Fills.antt =====
-- The write of fills and the submission of orders, on two orders.
use Prim.Native.String.{count}
use Prim.Native.String.{◌++◌ as str_append}
use text.Mathlib.TextLemmas.{length-append}
use trading_agents.Prelude.{
  ℕ, zero, suc, ◌+◌, ◌≡◌, ◌↔◌, refl, sym, ap, ◌∙◌, String, true, false, Option, none, some, List,
  [], ◌∷◌, arith, length, string_eq, nat_eq, pair_eq, ◌==◌, ==_iff, ◌||◌,
}
use trading_agents.Prelude.Dict.{get, put, keys}
use trading_agents.Kernel.Graph.Value.{str}
use trading_agents.Kernel.Graph.Store.{
  Props, Node, Store, empty_store, NodeKey, ok, make_node, frozen_props, merge_node, node_key,
  list_nodes,
}
use trading_agents.Kernel.Graph.Edges.{IsValid}
use trading_agents.Kernel.Graph.Append.{Holds}
use trading_agents.Execution.Money.{buy, sell, cents}
use trading_agents.Execution.PaperBroker.{BrokerFill, PaperBroker, filled, day_limit}
use trading_agents.Execution.FillAttempts.{FillAttempt, select_fill_attempt}
use trading_agents.Execution.FillAttempts.Selection.{IsFirst, select_fill_attempt-IsFirst}
use trading_agents.Execution.FillStore.{fill_props, write_fill, write_fills}
use trading_agents.Execution.FillStore.Written.{WrittenAt, write_fill_idempotent}
use trading_agents.Execution.FillStore.Run.{IsReady, Names, write_fills-Names}
use trading_agents.Execution.Reconcile.{
  same_signature, by_key, sorted, verdict, compare_recorded, unrecorded, reconcile_fills,
}
use trading_agents.Execution.Reconcile.Agreement.{Agree, reconcile_fills-Agree}
use trading_agents.Kernel.Errors.{FaultSink}
use trading_agents.Execution.Submission as Submission
use trading_agents.Execution.Submission.{
  OrderIntent, BrokerOrder, buy_action, sell_action, order_key, remember, execution_result,
}
use trading_agents.Execution.Submission.Submit.{
  Environment, World, paper, current_stage_from_graph, with_side, order_of, order_from_intent,
  orders_of,
}
use trading_agents.Execution.Submission.Run.{Progress, start, run_submit}
use trading_agents.Execution.Submission.Settled.{Ready, Settled, run_submit-Settled}

-- A text for each number, and no two the same.
unfoldable unary : ℕ → String
unary zero = ""
unary (suc n) = str_append "1" (unary n)

count-unary : (n : ℕ) → count (unary n) ≡ n
unfolding unary
count-unary zero = refl
count-unary (suc n) = omega (arith, length-append "1" (unary n), count-unary n)

unary_injective : (i j : ℕ) → unary i ≡ unary j → i ≡ j
unary_injective i j same = sym (count-unary i) ∙ (ap count same ∙ count-unary j)

-- A graph with a rejected first attempt.
abbrev old_fill : Node
unfolding make_node frozen_props
old_fill = make_node "Fill" "r1:AAPL:buy" (("status", str "rejected") ∷ []) 1

abbrev graph : Store
graph = record empty_store { nodes = (("Fill", "r1:AAPL:buy"), old_fill) ∷ [] }

abbrev no_evidence : BrokerFill → Props
no_evidence fill = []

abbrev bought : BrokerFill
bought = day_limit "r1:AAPL:buy" "AAPL" buy 3 (cents 1000 "USD") filled none

select_fill_attempt-IsFirst_example :
    (a : FillAttempt) × (select_fill_attempt unary graph "r1:AAPL:buy"
        (("status", str "filled") ∷ [])
        false
        2
      ≡ some a)
    × IsFirst unary unary_injective graph "r1:AAPL:buy" (("status", str "filled") ∷ []) false a
select_fill_attempt-IsFirst_example =
    select_fill_attempt-IsFirst unary unary_injective graph "r1:AAPL:buy"
      (("status", str "filled") ∷ []) false 2 (omega arith)

graph-IsValid : IsValid graph
unfolding get make_node frozen_props
graph-IsValid = record {
  keyed = λ k node h. ground (arith, h, ==_iff {A = NodeKey} ("Fill", "r1:AAPL:buy") k);
  joined = tt;
  distinct = tt;
}

graph_versions :
    (key : String) (old : Node) → get ("Fill", key) graph.nodes ≡ some old → old.schema_version ≡ 1
unfolding get make_node frozen_props
graph_versions key old h = ground (arith, h)

write_fill_idempotent_example :
    (a : FillAttempt) × (node : Node) × (s' : Store) × (write_fill unary no_evidence bought none
        graph
      ≡ some (ok node, s'))
    × (merge_node "Fill" a.key a.props 1 graph ≡ (ok node, s'))
    × IsFirst unary unary_injective graph "r1:AAPL:buy"
        (fill_props unary no_evidence bought none)
        false
        a
    × WrittenAt unary unary_injective graph "r1:AAPL:buy"
        (fill_props unary no_evidence bought none)
        ("Fill", a.key)
        node
        s'
    × (s'.edges ≡ [])
    × Holds node.props a.props
    × (node_key node ≡ ("Fill", a.key))
    × (node.schema_version ≡ 1)
    × (write_fill unary no_evidence bought none s' ≡ some (ok node, s'))
write_fill_idempotent_example =
    write_fill_idempotent unary unary_injective no_evidence bought none tt graph graph_versions

-- The same fill twice.
write_fills-Names_example :
    (graph_node_id : Option String) × (s' : Store) × (write_fills unary no_evidence
        "execution-submit-r1"
        (bought ∷ bought ∷ [])
        none
        graph
      ≡ some (
        ok (record {
          run_id = "execution-submit-r1";
          source_agent = "execution";
          graph_node_id = graph_node_id;
        }),
        s',
      ))
    × Names unary unary_injective no_evidence none (bought ∷ bought ∷ []) graph graph_node_id
    × IsReady unary unary_injective no_evidence none s'
write_fills-Names_example =
    write_fills-Names unary unary_injective no_evidence none "execution-submit-r1"
      (bought ∷ bought ∷ []) graph (tt, (tt, tt)) (graph-IsValid, graph_versions)

abbrev sold : BrokerFill
sold = day_limit "r1:MSFT:sell" "MSFT" sell 2 (cents 500 "USD") filled none

reconcile_fills-Agree_example :
    let rec = by_key (bought ∷ []) [] in
    let brk = by_key (sold ∷ bought ∷ []) [] in
    (((reconcile_fills (bought ∷ []) (sold ∷ bought ∷ [])).1 ≡ [])
      ↔ ((k : String) → Agree (get k rec) (get k brk)))
    × ((reconcile_fills (bought ∷ []) (sold ∷ bought ∷ [])).0
          + length (reconcile_fills (bought ∷ []) (sold ∷ bought ∷ [])).1
        ≡ length (keys rec) + length (unrecorded rec brk))
reconcile_fills-Agree_example = reconcile_fills-Agree (bought ∷ []) (sold ∷ bought ∷ [])

-- One match, and one fill that was not recorded.
reconcile_once :
    reconcile_fills (bought ∷ []) (sold ∷ bought ∷ [])
    ≡ (1, "r1:MSFT:sell: unrecorded_broker_fill" ∷ [])
unfolding reconcile_fills by_key sorted compare_recorded verdict same_signature get put
reconcile_once = refl

abbrev environment : Environment
environment = record {
  number = unary;
  text_of = λ value. "";
  lower = λ text. text;
  parse_digits = λ text. none;
  traceback_of = λ e. none;
  graph_exception = λ e. record { type_name = "ValueError"; text = ""; traceback = none };
  applied_tolerance_bps = λ intent side. 50;
  order_tolerance_props = no_evidence;
}

abbrev entry : OrderIntent
entry = record {
  ticker = "AAPL";
  action = buy_action;
  quantity = 3;
  est_price = cents 1000 "USD";
  position_ref = none;
}

abbrev leaving : OrderIntent
leaving = record {
  ticker = "BAD";
  action = sell_action;
  quantity = 2;
  est_price = cents 500 "USD";
  position_ref = some "p1";
}

abbrev intents : List OrderIntent
intents = entry ∷ leaving ∷ []

abbrev approved_set : Submission.OrderIntentSet
approved_set = record { run_id = "r1"; approved = intents; graph_node_id = some "PMRun:r1" }

abbrev world : World PaperBroker ℕ
world = record {
  graph = graph;
  broker = record {
    stop_order_status = "new";
    slippage_bps = 5;
    order_price_tolerance_bps = 50;
    reject_tickers = "BAD" ∷ [];
    initial_cash_cents = 100000;
    fills = [];
    cancelled = [];
  };
  sink = 0;
  recorded = [];
}

abbrev fault_counter : FaultSink ℕ
fault_counter = record { submit = λ fault n. n + 1; clock = λ n. (n, n) }

abbrev built : List (OrderIntent × BrokerOrder)
built =
    (entry, order_of environment "r1" entry buy)
    ∷ (leaving, order_of environment "r1" leaving sell)
    ∷ []

are_built : orders_of environment "r1" intents ≡ ok built
unfolding orders_of order_from_intent with_side
are_built = refl

is_paper :
    ((current_stage_from_graph environment graph "paper" == "paper")
      || (current_stage_from_graph environment graph "paper" == "broker_shadow"))
    ≡ true
unfolding current_stage_from_graph list_nodes make_node frozen_props
is_paper = refl

-- One order that is filled and one that the broker rejects.
run_submit-Settled_example :
    (p : Progress) × (w' : World PaperBroker ℕ) × (run_submit environment paper fault_counter
        approved_set "paper" world
      ≡ some (
        ok (
            execution_result "execution-submit-r1"
              (current_stage_from_graph environment graph "paper")
              p.fills
              p.provenance
              p.skipped),
        record w' { recorded = remember p.fills w'.recorded },
      ))
    × Settled environment unary_injective
        (λ fill. tt)
        paper
        fault_counter
        approved_set
        built
        (start approved_set)
        world
        p
        w'
    × (length p.fills + p.skipped ≡ 2)
    × Ready environment unary_injective (λ fill. tt) paper fault_counter approved_set w'
run_submit-Settled_example =
    run_submit-Settled environment unary_injective (λ fill. tt) paper fault_counter approved_set
      "paper" built world (graph-IsValid, graph_versions) is_paper are_built
