-- ===== src/Tests/Messages.antt =====
-- The bus, serving, the claim check, the fault sink and the resend, on small worlds that count.
use trading_agents.Prelude.{
  ℕ, ◌+◌, ◌*◌, ◌/◌, ◌≡◌, ◌≤◌, refl, String, none, some, List, [], ◌∷◌, All, arith, length, ltb,
  if◌then◌else◌, string_eq, pair_eq,
}
use trading_agents.Prelude.Dict.{get}
use trading_agents.Kernel.Graph.Value.{str}
use trading_agents.Kernel.Graph.Store.{
  Props, Node, empty_store, ok, make_node, merge_node, merge_at,
}
use trading_agents.Kernel.Errors.{returned, raised, AgentFault, FaultSink, error}
use trading_agents.Kernel.Envelope.{MessageType, AgentMessage, validate}
use trading_agents.Kernel.Bus.{
  MessageHandler, InProcessBus, empty_bus, Runtime, register, request, answer,
}
use trading_agents.Kernel.Bus.Replies.{IsValid, Replies, request-Replies}
use trading_agents.Kernel.Bus.Registry.{
  Registration, register_all, last_for, handler_in, callers_in, request-register_all,
}
use trading_agents.Kernel.ServeLoop.{LocalRequestConsumer, local, serve_once}
use trading_agents.Kernel.ServeLoop.Answered.{Served, serve_once-Served}
use trading_agents.Kernel.Bus.{publish, deliver}
use trading_agents.Kernel.Graph.Append.{Holds}
use trading_agents.Kernel.Graph.Fresh.{with_node}
use trading_agents.Kernel.Faults.Collapse.{
  FaultWindow, default_fault_collapse_policy, fault_signature, within_window, occurrence_count,
}
use trading_agents.Kernel.Faults.{GraphFaultSink, fault_node_key, submit_all}
use trading_agents.Kernel.Faults.Storm.{IsDuplicateOf, fault_node, storm-Counts}
use trading_agents.Kernel.ClaimCheck.{ReadyEvent, dump, claim_check_write, claim_check_read}
use trading_agents.Kernel.ClaimCheck.RoundTrip.{KeepsNodes, claim_check_read-write}
use trading_agents.Kernel.EhloRetry.{
  Failure, timeout_error, default_ehlo_settings, Sent, Ended, RetryHooks, send_with_retry,
}
use trading_agents.Kernel.EhloRetry.Trace.{Attempt, recording, beside, Ends}
use trading_agents.Kernel.EhloRetry.Attempts.{IsOfCall, send_with_retry-Ends}

abbrev echo : {W : Type 0} → MessageHandler W
echo payload w = (returned payload, w)

abbrev fails : {W : Type 0} → MessageHandler W
fails payload w =
    (raised (record { type_name = "ValueError"; text = "no such order"; traceback = none }), w)

abbrev counting : {V : Type 0} → Runtime (V × ℕ)
counting = record {
  strip = λ text. text;
  stamps = record { uuid4 = λ w. ("id", (w.0, w.1 + 1)); now = λ w. (w.1, w) };
  sink = record { submit = λ fault w. (w.0, w.1 + 100); clock = λ w. (w.1, w) };
  record_request = λ agent capability ok w. w;
}

abbrev asked : AgentMessage
asked = record {
  id = "m1";
  sent_at = 0;
  sender = "operator";
  recipient = "execution";
  message_type = MessageType.request;
  capability = "submit";
  payload = ("ticker", str "AAPL") ∷ [];
  correlation_id = none;
}

asked-IsValid : IsValid (λ text. text) asked
unfolding validate
asked-IsValid = refl

abbrev failing_bus : {W : Type 0} → InProcessBus W
unfolding register
failing_bus = register "execution" "submit" fails [] empty_bus

-- A handler that raises.
request-Replies_example :
    Replies {W = Unit {0} × ℕ} counting asked (request counting asked failing_bus (tt, 0))
request-Replies_example = request-Replies counting asked asked-IsValid failing_bus (tt, 0)

abbrev registrations : List (Registration (Unit {0} × ℕ))
registrations =
    record { recipient = "execution"; capability = "submit"; handler = fails; allowed_callers = [] }
    ∷ record {
      recipient = "execution";
      capability = "submit";
      handler = echo;
      allowed_callers = "operator" ∷ [];
    }
    ∷ []

-- The second registration is the one that answers.
request-register_all_example :
    let found = last_for ("execution", "submit") none registrations in
    request counting asked (register_all registrations empty_bus) (tt, 0)
    ≡ answer counting asked (handler_in found) (callers_in found) (tt, 0)
request-register_all_example = request-register_all counting asked registrations (tt, 0)

abbrev inbox : LocalRequestConsumer
inbox = record { inbox = asked ∷ asked ∷ []; replies = [] }

abbrev fault_counter : FaultSink (LocalRequestConsumer × ℕ)
fault_counter = record { submit = λ fault w. (w.0, w.1 + 100); clock = λ w. (w.1, w) }

-- Two requests that both fail.
serve_once-Served_example :
    (w' : LocalRequestConsumer × ℕ) × (serve_once local counting failing_bus fault_counter
        (inbox, 0)
      ≡ (returned 2, w'))
    × Served local counting failing_bus fault_counter
        (asked ∷ asked ∷ [])
        (record { inbox = []; replies = [] }, 0)
        w'
unfolding local
serve_once-Served_example =
    serve_once-Served local counting failing_bus fault_counter (inbox, 0)
      (asked-IsValid, (asked-IsValid, tt))

abbrev iso : ℕ → String
iso moment = if ltb moment 1000000 then "first" else "later"

abbrev digest : String → String
digest text = text

abbrev outage : ℕ → AgentFault
outage moment = record {
  occurred_at = moment;
  source_agent = "provider";
  source_module = "agents.provider.feed";
  capability = some "quotes";
  severity = error;
  error_type = "TimeoutError";
  message = "timed out";
  traceback = none;
  correlation_id = none;
  context = [];
}

abbrev empty_sink : GraphFaultSink iso digest ℕ
empty_sink = record { graph = empty_store; windows = []; inner = 0 }

abbrev add_one : AgentFault → ℕ → ℕ
add_one fault n = n + 1

abbrev repeats : List AgentFault
repeats = outage 1000000 ∷ outage 2000000 ∷ []

no_window : get (fault_signature iso digest (outage 0)).key empty_sink.windows ≡ none
unfolding get
no_window = refl

no_fault_node : get ("Fault", fault_node_key iso digest (outage 0)) empty_store.nodes ≡ none
unfolding get
no_fault_node = refl

repeats-IsDuplicateOf :
    All (IsDuplicateOf iso digest add_one default_fault_collapse_policy (outage 0)) repeats
unfolding fault_signature within_window
repeats-IsDuplicateOf = ((refl, refl), ((refl, refl), tt))

-- An outage that is met three times.
storm-Counts_example :
    (sink' : GraphFaultSink iso digest ℕ) × (submit_all iso digest add_one
        default_fault_collapse_policy
        (outage 0 ∷ repeats)
        empty_sink
      ≡ (ok tt, sink'))
    × (sink'.graph
        ≡ with_node
            (fault_node iso digest add_one default_fault_collapse_policy (outage 0))
            empty_store)
    × (sink'.inner ≡ 3)
    × ((window : FaultWindow) × (get (fault_signature iso digest (outage 0)).key sink'.windows
          ≡ some window)
        × (window.first_fault ≡ outage 0)
        × (occurrence_count window ≡ 3))
storm-Counts_example =
    storm-Counts iso digest add_one default_fault_collapse_policy (outage 0) repeats empty_sink
      no_window no_fault_node repeats-IsDuplicateOf

abbrev ready : ReadyEvent
ready = record {
  topic = "portfolio.orders.ready";
  label = "OrderSet";
  ref = "orders:r1";
  run_id = some "r1";
}

abbrev order_set_props : Props
order_set_props = ("run_id", str "r1") ∷ []

silent-KeepsNodes : KeepsNodes empty_bus
unfolding publish deliver get
silent-KeepsNodes topic event s k node h = h

announced_once :
    claim_check_write empty_bus ready order_set_props empty_store
    ≡ (returned ready, with_node (make_node "OrderSet" "orders:r1" order_set_props 1) empty_store)
unfolding claim_check_write publish deliver get merge_node merge_at make_node
announced_once = refl

claim_check_read-write_example :
    (node : Node) × (claim_check_read
        (dump ready)
        (with_node (make_node "OrderSet" "orders:r1" order_set_props 1) empty_store)
      ≡ returned node)
    × Holds node.props order_set_props
claim_check_read-write_example =
    claim_check_read-write empty_bus ready ready order_set_props empty_store
      (with_node (make_node "OrderSet" "orders:r1" order_set_props 1) empty_store) silent-KeepsNodes
      (refl, tt) announced_once

abbrev plain : Failure → String
plain e = "failure"

abbrev number_text : ℕ → String
number_text n = "n"

-- A master that is asleep for the first two attempts. The world is the number of the sends.
abbrev sleepy : String → String → ℕ → ℕ → Sent String × ℕ
sleepy url body timeout n =
    (if ltb n 2 then Sent.raised (timeout_error "timed out") else Sent.returned "ACTIVATE", n + 1)

abbrev hooks : RetryHooks ℕ
hooks = record {
  clock = λ n. (n * 1000000, n);
  sleep = λ delay n. n;
  jitter = λ ceiling n. (ceiling / 2, n);
  log = λ text n. n;
}

send_with_retry-Ends_example :
    (ended : Ended String) × (new : List (Attempt ℕ String String)) × (n : ℕ) × (send_with_retry
        plain plain number_text number_text
        (recording sleepy)
        "http://master"
        "boot"
        default_ehlo_settings
        (beside hooks)
        6
        ([], 0)
      ≡ some (ended, (new, n)))
    × All
        (IsOfCall plain plain number_text number_text sleepy "http://master" "boot"
          default_ehlo_settings hooks)
        new
    × Ends hooks "http://master" default_ehlo_settings (hooks.clock 0).0 1 new ended
    × (length new ≤ 6)
send_with_retry-Ends_example =
    send_with_retry-Ends plain plain number_text number_text sleepy "http://master" "boot"
      default_ehlo_settings hooks 6 0 (omega arith)
