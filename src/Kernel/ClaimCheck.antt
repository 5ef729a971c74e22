-- ===== src/Kernel/ClaimCheck.antt =====
-- kernel/claim_check.py: an artifact goes into the graph, and the bus carries a small event that names
-- it. The handlers of the bus act on the graph. `dump` and `parse` are the JSON form of the event.
pub mod RoundTrip
use trading_agents.Prelude.{String, Option, none, some, List, [], ◌∷◌, fstring, string_eq}
use trading_agents.Prelude.Dict.{get}
use trading_agents.Kernel.Graph.Value.{Value, null, str}
use trading_agents.Kernel.Graph.Store as Graph
use trading_agents.Kernel.Graph.Store.{
  Node, Props, Error, value_error, key_error, Store, Result, merge_node, get_node,
}
use trading_agents.Kernel.Errors.{Exception, Outcome, returned, raised}
use trading_agents.Kernel.Bus.{InProcessBus, publish}

pub record ReadyEvent : Type 0 where
  pub topic : String
  pub label : String
  pub ref : String
  pub run_id : Option String

abbrev pub optional : Option String → Value
optional none = null
optional (some text) = str text

-- `event.model_dump(mode="json")`
unfoldable pub dump : ReadyEvent → Props
dump event =
    ("topic", str event.topic)
    ∷ ("label", str event.label)
    ∷ ("ref", str event.ref)
    ∷ ("run_id", optional event.run_id)
    ∷ []

-- A required text, and one that may be absent or null.
abbrev pub text_field : Option Value → Option String
text_field (some (str text)) = some text
text_field other = none

abbrev pub optional_field : Option Value → Option (Option String)
optional_field none = some none
optional_field (some null) = some none
optional_field (some (str text)) = some (some text)
optional_field other = none

abbrev pub built :
    Option String → Option String → Option String → Option (Option String) → Option ReadyEvent
built (some topic) (some label) (some ref) (some run_id) =
    some (record { topic = topic; label = label; ref = ref; run_id = run_id })
built _ _ _ _ = none

-- `ReadyEvent.model_validate(event)`: `none` where it raises.
unfoldable pub parse : Props → Option ReadyEvent
parse event =
    built (text_field (get "topic" event)) (text_field (get "label" event))
      (text_field (get "ref" event)) (optional_field (get "run_id" event))

abbrev pub raise : {A : Type 0} → String → String → Outcome A
raise type_name text = raised (record { type_name = type_name; text = text; traceback = none })

-- An exception of the graph.
abbrev pub graph_raise : {A : Type 0} → Error → Outcome A
graph_raise (value_error text) = raise "ValueError" text
graph_raise (key_error text) = raise "KeyError" text

-- The announcement, once the node is written.
abbrev pub announced : ReadyEvent → Outcome (Unit {0}) × Store → Outcome ReadyEvent × Store
announced event (returned done, s) = (returned event, s)
announced event (raised exc, s) = (raised exc, s)

abbrev pub after_write :
    InProcessBus Store → ReadyEvent → Result Node × Store → Outcome ReadyEvent × Store
after_write bus event (Graph.ok node, s) = announced event (publish bus event.topic (dump event) s)
after_write bus event (Graph.raised e, s) = (graph_raise e, s)

unfoldable pub claim_check_write :
    InProcessBus Store → ReadyEvent → Props → Store → Outcome ReadyEvent × Store
unfolding dump
claim_check_write bus event props s =
    after_write bus event (merge_node event.label event.ref props 1 s)

abbrev pub found : ReadyEvent → Option Node → Outcome Node
found event none =
    raise "RuntimeError"
      (fstring ("claim_check_read: no '" ∷ event.label ∷ "' node for ref '" ∷ event.ref ∷ "'" ∷ []))
found event (some node) = returned node

abbrev pub read_event : Option ReadyEvent → Store → Outcome Node
read_event none s = raise "ValidationError" "ReadyEvent"
read_event (some event) s = found event (get_node event.label event.ref s)

unfoldable pub claim_check_read : Props → Store → Outcome Node
unfolding parse
claim_check_read event s = read_event (parse event) s
