-- ===== src/Kernel/ClaimCheck/RoundTrip.antt =====
-- What was announced can be read (kernel/claim_check.py).
use trading_agents.Prelude.{
  ◌≡◌, refl, ap, sym, ◌∙◌, String, Option, none, some, ==_refl, string_eq, pair_eq,
}
use trading_agents.Prelude.Dict.{get}
use trading_agents.Kernel.Graph.Store as Graph
use trading_agents.Kernel.Graph.Store.{NodeKey, Node, Props, Store, merge_node, get_node}
use trading_agents.Kernel.Graph.Append.{IsUnique, Holds}
use trading_agents.Kernel.Graph.Idempotent.{merge_node_appends}
use trading_agents.Kernel.Errors.{Outcome, returned, raised}
use trading_agents.Kernel.Bus.{InProcessBus, publish}
use trading_agents.Kernel.ClaimCheck.{
  ReadyEvent, dump, parse, graph_raise, optional, optional_field, built, announced, after_write,
  claim_check_write, claim_check_read,
}

optional_lem : (run_id : Option String) → optional_field (some (optional run_id)) ≡ some run_id
optional_lem none = refl
optional_lem (some text) = refl

-- The event survives its JSON form.
parse-dump : (event : ReadyEvent) → parse (dump event) ≡ some event
unfolding parse dump get
parse-dump event =
    ap (λ run_id. built (some event.topic) (some event.label) (some event.ref) run_id)
      (optional_lem event.run_id)

graph_raise_lem :
    (event' : ReadyEvent) (s' s1 : Store) (e : Graph.Error)
    → ◌≡◌ {A = Outcome ReadyEvent × Store} (graph_raise e, s1) (returned event', s')
    → ⊥
graph_raise_lem event' s' s1 (Graph.value_error text) h = cc h
graph_raise_lem event' s' s1 (Graph.key_error text) h = cc h

announced_by :
    (event event' : ReadyEvent) (s' : Store) (out : Outcome (Unit {0}) × Store)
    → announced event out ≡ (returned event', s')
    → (out ≡ (returned tt, s')) × (event' ≡ event)
announced_by event event' s' (returned done, s) h = (cc h, cc h)
announced_by event event' s' (raised exc, s) h = absurd (cc h)

written_by :
    (bus : InProcessBus Store) (event event' : ReadyEvent) (s' : Store)
    (out : Graph.Result Node × Store)
    → after_write bus event out ≡ (returned event', s')
    → (node : Node) × (s1 : Store) × (out ≡ (Graph.ok node, s1))
      × (publish bus event.topic (dump event) s1 ≡ (returned tt, s'))
      × (event' ≡ event)
written_by bus event event' s' (Graph.ok node, s1) h =
    let (ran, same) = announced_by event event' s' (publish bus event.topic (dump event) s1) h in
    (node, s1, refl, ran, same)
written_by bus event event' s' (Graph.raised e, s1) h = absurd (graph_raise_lem event' s' s1 e h)

-- The store after a write that announced.
written :
    (bus : InProcessBus Store) (event event' : ReadyEvent) (props : Props) (s s' : Store)
    → claim_check_write bus event props s ≡ (returned event', s')
    → (node : Node) × (s1 : Store) × (merge_node event.label event.ref props 1 s
        ≡ (Graph.ok node, s1))
      × (publish bus event.topic (dump event) s1 ≡ (returned tt, s'))
      × (event' ≡ event)
unfolding claim_check_write
written bus event event' props s s' h =
    written_by bus event event' s' (merge_node event.label event.ref props 1 s) h

-- Subscribers that keep the nodes that are there.
abbrev pub KeepsNodes : InProcessBus Store → Type 0
KeepsNodes bus =
    (topic : String) (event : Props) (s : Store) (k : NodeKey) (node : Node)
    → get k s.nodes ≡ some node
    → get k (publish bus topic event s).1.nodes ≡ some node

-- Where the subscribers keep the nodes that are there, an artifact that was written and announced is
-- what the announcement reads back: the node that holds every property that was written.
pub claim_check_read-write :
    (bus : InProcessBus Store) (event event' : ReadyEvent) (props : Props) (s s' : Store)
    → KeepsNodes bus
    → IsUnique props
    → claim_check_write bus event props s ≡ (returned event', s')
    → (node : Node) × (claim_check_read (dump event') s' ≡ returned node) × Holds node.props props
unfolding claim_check_read get_node
claim_check_read-write bus event event' props s s' keeps unique h =
    let (node, s1, wrote, ran, same) = written bus event event' props s s' h in
    let (stored, edges, faults, holds, kept) =
      merge_node_appends event.label event.ref props 1 s s1 node unique wrote in
    let at_key =
      stored (event.label, event.ref) ∙ rw (==_refl {A = NodeKey} (event.label, event.ref)) refl in
    let still =
      ap (λ out. get (event.label, event.ref) out.1.nodes) (sym ran)
      ∙ keeps event.topic (dump event) s1 (event.label, event.ref) node at_key in
    (node, rw (same, parse-dump event, still) refl, holds)
