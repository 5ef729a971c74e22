-- ===== src/Execution/Lifecycle.antt =====
-- contracts/broker_lifecycle.py: what the facts of a broker order and of a fill say of its life. `text_of`
-- and `lower` are Python's `str` of a value and lower case.
use text.Mathlib.Text.{starts_with}
use trading_agents.Prelude.{
  String, Bool, true, false, not, ◌&&◌, ◌||◌, ◌==◌, Option, none, some, List, [], ◌∷◌, any, elem,
  if◌then◌else◌, string_eq, nat_eq,
}
use trading_agents.Prelude.Int.{pos, negsuc}
use trading_agents.Prelude.Dict.{get, is_some}
use trading_agents.Kernel.Graph.Value.{
  Value, null, num, str, list, tuple, set, frozenset, dict, proxy, Items, nil, cons, Fields, end,
  field,
}
use trading_agents.Kernel.Graph.Store.{Node, Store, get_node, list_nodes, has_text}
use trading_agents.Execution.PaperBroker.{BrokerFill, Status, filled, partial, rejected, pending}

abbrev broker_stop_order_types : List String
broker_stop_order_types = "stop" ∷ "stop_limit" ∷ []

abbrev terminal_fill_broker_statuses : List String
terminal_fill_broker_statuses = "filled" ∷ "rejected" ∷ []

abbrev resolved_unfilled_broker_statuses : List String
resolved_unfilled_broker_statuses = "canceled" ∷ "cancelled" ∷ "expired" ∷ []

abbrev terminal_broker_order_statuses : List String
terminal_broker_order_statuses =
    "canceled" ∷ "cancelled" ∷ "expired" ∷ "filled" ∷ "rejected" ∷ "replaced" ∷ []

abbrev completed_exit_broker_statuses : List String
completed_exit_broker_statuses = "filled" ∷ "partial" ∷ "partially_filled" ∷ []

abbrev ended_markers : List String
ended_markers = "cancelled_at" ∷ "replaced_at" ∷ []

-- `_truthy_str`
abbrev truthy_str : Option Value → Option String
truthy_str (some (str text)) = if text == "" then none else some text
truthy_str _ = none

-- `props.get(name) is None`
abbrev is_none : Option Value → Bool
is_none none = true
is_none (some null) = true
is_none (some _) = false

abbrev has_items : Items → Bool
has_items nil = false
has_items (cons x xs) = true

abbrev has_fields : Fields → Bool
has_fields end = false
has_fields (field name value rest) = true

-- Python's truth of a value.
abbrev is_truthy : Value → Bool
is_truthy null = false
is_truthy (num (pos n)) = not (n == 0)
is_truthy (num (negsuc n)) = true
is_truthy (str text) = not (text == "")
is_truthy (list xs) = has_items xs
is_truthy (tuple xs) = has_items xs
is_truthy (set xs) = has_items xs
is_truthy (frozenset xs) = has_items xs
is_truthy (dict fs) = has_fields fs
is_truthy (proxy fs) = has_fields fs

abbrev status_text : Status → String
status_text filled = "filled"
status_text partial = "partial"
status_text rejected = "rejected"
status_text pending = "pending"

abbrev or_else : Option Value → Option Value → Option Value
or_else none other = other
or_else (some value) other = some value

abbrev optional : Option String → Option Value
optional none = none
optional (some text) = some (str text)

-- `is_resting_stop_fill`
unfoldable pub is_resting_stop_fill : Node → Bool
is_resting_stop_fill fill = is_some (truthy_str (get "stop_order_key" fill.props))

abbrev first_with : String → List Node → Option Node
first_with broker_order_id [] = none
first_with broker_order_id (node ∷ nodes) =
    if has_text "broker_order_id" broker_order_id node.props
    then some node
    else first_with broker_order_id nodes

abbrev by_order_id : Option String → Store → Option Node
unfolding list_nodes
by_order_id none graph = none
by_order_id (some broker_order_id) graph = first_with broker_order_id (list_nodes "Fill" graph)

abbrev sibling_or : Option Node → Node → Store → Option Node
unfolding by_order_id
sibling_or (some fill) stop graph = some fill
sibling_or none stop graph = by_order_id (truthy_str (get "broker_order_id" stop.props)) graph

unfoldable pub sibling_fill_for_broker_stop : Store → Node → Option Node
unfolding get_node sibling_or
sibling_fill_for_broker_stop graph stop = sibling_or (get_node "Fill" stop.key graph) stop graph

unfoldable pub fill_quantity_key : Node → String
fill_quantity_key fill =
    if is_some (get "broker_filled_quantity" fill.props)
    then "broker_filled_quantity"
    else "quantity"

module _ (text_of : Value → String) (lower : String → String) where
  -- `_normalise`: `str(value or "").lower()`
  unfoldable pub normalise : Option Value → String
  normalise none = lower ""
  normalise (some value) = if is_truthy value then lower (text_of value) else lower ""

  unfoldable pub is_terminal_fill_broker_status : Option Value → Bool
  unfolding normalise
  is_terminal_fill_broker_status value = elem (normalise value) terminal_fill_broker_statuses

  unfoldable pub is_terminal_broker_order_status : Option Value → Bool
  unfolding normalise
  is_terminal_broker_order_status value = elem (normalise value) terminal_broker_order_statuses

  -- `is_resolved_drop_status` and `is_resolved_unfilled_broker_status`
  unfoldable pub is_resolved_unfilled_broker_status : Option Value → Bool
  unfolding normalise
  is_resolved_unfilled_broker_status value =
      elem (normalise value) resolved_unfilled_broker_statuses

  -- `_effective_fill_status`
  unfoldable pub effective_fill_status : Node → String
  unfolding normalise
  effective_fill_status fill =
      normalise (or_else (get "broker_status" fill.props) (get "status" fill.props))

  unfoldable pub is_completed_exit_fill : Node → Bool
  unfolding effective_fill_status
  is_completed_exit_fill fill = elem (effective_fill_status fill) completed_exit_broker_statuses

  unfoldable pub is_filled_buy_fill : Node → Bool
  unfolding effective_fill_status
  is_filled_buy_fill fill =
      has_text "side" "buy" fill.props && effective_fill_status fill == "filled"

  unfoldable pub is_open_order_fill : Node → Bool
  unfolding is_terminal_fill_broker_status is_resting_stop_fill
  is_open_order_fill fill =
      fill.label == "Fill"
      && (has_text "status" "pending" fill.props
          && (not (is_terminal_fill_broker_status (get "broker_status" fill.props))
              && (is_none (get "drop_reason" fill.props) && not (is_resting_stop_fill fill))))

  abbrev is_live_beside : Option Node → Bool
  unfolding is_terminal_fill_broker_status
  is_live_beside none = true
  is_live_beside (some fill) = not (is_terminal_fill_broker_status (get "broker_status" fill.props))

  unfoldable pub is_live_broker_stop_fact : Store → Node → Bool
  unfolding is_live_beside sibling_fill_for_broker_stop
  is_live_broker_stop_fact graph stop =
      not (any (λ name. is_some (truthy_str (get name stop.props))) ended_markers)
      && is_live_beside (sibling_fill_for_broker_stop graph stop)

  unfoldable pub is_broker_stop_order : BrokerFill → Bool
  unfolding normalise
  is_broker_stop_order order =
      starts_with order.idempotency_key "stop:"
      || elem (normalise (optional order.order_type)) broker_stop_order_types

  unfoldable pub broker_order_lifecycle_status : BrokerFill → String
  unfolding normalise
  broker_order_lifecycle_status order =
      let reason = normalise (optional order.reason) in
      if elem reason terminal_broker_order_statuses
      then reason
      else normalise (some (str (status_text order.status)))

  unfoldable pub is_live_broker_stop_order : BrokerFill → Bool
  unfolding is_broker_stop_order is_terminal_broker_order_status broker_order_lifecycle_status
  is_live_broker_stop_order order =
      is_broker_stop_order order
      && not (is_terminal_broker_order_status (some (str (broker_order_lifecycle_status order))))
