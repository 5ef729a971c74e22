-- ===== src/Execution/FillStore.antt =====
-- agents/execution/store.py: the write of the fills of a run, with the link to the order of the
-- portfolio manager. `order_tolerance_props` of agents/execution/tolerance_store_props.py, whose
-- evidence holds a float, is a parameter.
pub mod Clean
pub mod Written
pub mod Run
use Prim.Native.String.{len, slice}
use text.Mathlib.Text.{starts_with}
use trading_agents.Prelude.{
  ℕ, suc, String, true, false, Option, none, some, List, [], ◌∷◌, length, if◌then◌else◌, fstring,
  string_eq,
}
use trading_agents.Prelude.Int.{pos}
use trading_agents.Prelude.Dict.{put}
use trading_agents.Kernel.Graph.Value.{Value, null, num, str}
use trading_agents.Kernel.Graph.Store.{
  Node, Props, Store, Result, ok, raised, merge_node, get_node, add_edge,
}
use trading_agents.Execution.Money.{Side, buy, sell, money_to_cents}
use trading_agents.Execution.PaperBroker.{BrokerFill, Status, filled, partial, rejected, pending}
use trading_agents.Execution.FillAttempts.{FillAttempt, select_fill_attempt}

-- `OrderIntentSet`, with what this module reads of it: the provenance by its graph node.
pub record OrderIntentSet : Type 0 where
  pub run_id : String
  pub graph_node_id : Option String

pub record Provenance : Type 0 where
  pub run_id : String
  pub source_agent : String
  pub graph_node_id : Option String

abbrev side_text : Side → String
side_text buy = "buy"
side_text sell = "sell"

abbrev status_text : Status → String
status_text filled = "filled"
status_text partial = "partial"
status_text rejected = "rejected"
status_text pending = "pending"

abbrev pub optional : Option String → Value
optional none = null
optional (some text) = str text

-- `if text is not None: props[name] = text`
abbrev pub put_some : String → Option String → Props → Props
put_some name none props = props
put_some name (some text) props = put name (str text) props

-- `props.update(new_props)`
abbrev pub update : Props → Props → Props
update props [] = props
update props ((name, value) ∷ new_props) = update (put name value props) new_props

abbrev source_run : Option OrderIntentSet → Option String
source_run none = none
source_run (some order_set) = some order_set.run_id

-- `_pm_run_key`
abbrev after_pm_run : Option String → Option String
after_pm_run none = none
after_pm_run (some graph_id) =
    if starts_with graph_id "PMRun:"
    then some (slice graph_id (len "PMRun:") (len graph_id))
    else none

unfoldable pub pm_run_key : Option OrderIntentSet → Option String
pm_run_key none = none
pm_run_key (some order_set) = after_pm_run order_set.graph_node_id

-- `_link_order_intent`
abbrev link_to : Node → Option Node → Store → Result (Unit {0}) × Store
link_to fill none graph = (ok tt, graph)
link_to fill (some order) graph = add_edge fill order "EXECUTES" [] graph

unfoldable pub link_order_intent : Node → Option String → String → Store → Result (Unit {0}) × Store
unfolding get_node
link_order_intent fill none ticker graph = (ok tt, graph)
link_order_intent fill (some run_key) ticker graph =
    link_to fill (get_node "OrderIntent" (fstring (run_key ∷ ":" ∷ ticker ∷ [])) graph) graph

abbrev pub first_or : Option Node → Node → Option Node
first_or none node = some node
first_or (some first) node = some first

abbrev id_of : Option Node → Option String
id_of none = none
id_of (some first) = some (fstring (first.label ∷ ":" ∷ first.key ∷ []))

module _ (number : ℕ → String) (order_tolerance_props : BrokerFill → Props) where
  -- `_fill_props`
  unfoldable pub fill_props : BrokerFill → Option OrderIntentSet → Props
  unfolding money_to_cents
  fill_props fill order_set = put_some "source_run_id" (source_run order_set) (
      update
        (put_some "time_in_force" fill.time_in_force (
          put_some "order_type" fill.order_type (
            put_some "submitted_at" fill.submitted_at (
              ("ticker", str fill.ticker)
              ∷ ("side", str (side_text fill.side))
              ∷ ("quantity", num (pos fill.quantity))
              ∷ ("price_cents", num (pos (money_to_cents fill.price)))
              ∷ ("price_currency", str fill.price.currency)
              ∷ ("broker_order_id", str fill.broker_order_id)
              ∷ ("status", str (status_text fill.status))
              ∷ ("reason", optional fill.reason)
              ∷ []))))
        (order_tolerance_props fill))

  -- The write of a selected attempt, and then its link; `none` is a search out of fuel.
  abbrev pub write_attempt : Option FillAttempt → Store → Option (Result Node × Store)
  write_attempt none graph = none
  write_attempt (some attempt) graph = some (merge_node "Fill" attempt.key attempt.props 1 graph)

  -- The search has one step of fuel for each node, and one more.
  unfoldable pub write_fill :
      BrokerFill → Option OrderIntentSet → Store → Option (Result Node × Store)
  unfolding fill_props select_fill_attempt
  write_fill fill order_set graph =
      write_attempt
        (select_fill_attempt number graph fill.idempotency_key (fill_props fill order_set) false
          (suc (length graph.nodes)))
        graph

  abbrev pub linked_as : Node → Result (Unit {0}) × Store → Result Node × Store
  linked_as node (ok done, graph) = (ok node, graph)
  linked_as node (raised e, graph) = (raised e, graph)

  abbrev pub link_written :
      Option OrderIntentSet → String → Option (Result Node × Store) → Option (Result Node × Store)
  link_written order_set ticker none = none
  link_written order_set ticker (some (raised e, graph)) = some (raised e, graph)
  link_written order_set ticker (some (ok node, graph)) =
      some (linked_as node (link_order_intent node (pm_run_key order_set) ticker graph))

  abbrev pub and_then :
      Option (Result Node × Store)
      → (Node → Store → Option (Result Provenance × Store))
      → Option (Result Provenance × Store)
  and_then none f = none
  and_then (some (raised e, graph)) f = some (raised e, graph)
  and_then (some (ok node, graph)) f = f node graph

  -- `for fill in fills:`, with the first node so far.
  unfoldable pub write_from :
      String
      → List BrokerFill
      → Option OrderIntentSet
      → Option Node
      → Store
      → Option (Result Provenance × Store)
  unfolding write_fill
  write_from run_id [] order_set first graph = some (
    ok (record { run_id = run_id; source_agent = "execution"; graph_node_id = id_of first }),
    graph,
  )
  write_from run_id (fill ∷ fills) order_set first graph =
      and_then (link_written order_set fill.ticker (write_fill fill order_set graph))
        (λ node. write_from run_id fills order_set (first_or first node))

  unfoldable pub write_fills :
      String → List BrokerFill → Option OrderIntentSet → Store → Option (Result Provenance × Store)
  unfolding write_from
  write_fills run_id fills order_set graph = write_from run_id fills order_set none graph
