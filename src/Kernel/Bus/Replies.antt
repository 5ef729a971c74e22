-- ===== src/Kernel/Bus/Replies.antt =====
-- What `request` answers (kernel/bus.py, kernel/envelope.py).
use trading_agents.Prelude.{
  ◌≡◌, refl, String, Bool, true, false, Option, none, some, List, ◌==◌, ==_iff, arith, Bool-cases,
  inl, inr, string_eq, pair_eq,
}
use trading_agents.Prelude.Dict.{get}
use trading_agents.Kernel.Graph.Store.{Props}
use trading_agents.Kernel.Errors.{Outcome, returned, raised, Capture, completed, captured, contain}
use trading_agents.Kernel.Envelope.{
  MessageType, response, error, is_request, is_reply, AgentMessage, validate, make_message,
}
use trading_agents.Kernel.Bus.{
  MessageHandler, caller_authorized, InProcessBus, Runtime, reply, settle, answer, allowed_for,
  request,
}

-- A message that its constructor let through.
abbrev pub IsValid : (String → String) → AgentMessage → Type 0
IsValid strip m = validate strip m ≡ returned m

-- A message back to the sender, on the thread of the one it answers.
abbrev pub Answers : AgentMessage → AgentMessage → Type 0
Answers m r =
    (r.sender ≡ m.recipient)
    × (r.recipient ≡ m.sender)
    × (r.capability ≡ m.capability)
    × (r.correlation_id ≡ some m.id)
    × (is_reply r.message_type ≡ true)

reply_no_request : (t : MessageType) → is_reply t ≡ true → is_request t ≡ false
reply_no_request response h = refl
reply_no_request error h = refl
reply_no_request MessageType.request h = ground (arith, h)
reply_no_request MessageType.notification h = ground (arith, h)

-- A valid message is of two parties, and its capability is not blank.
IsValid-parts :
    (strip : String → String) (m : AgentMessage)
    → IsValid strip m
    → ((m.sender == m.recipient) ≡ false) × ((strip m.capability == "") ≡ false)
unfolding validate
IsValid-parts strip m valid = elim (Bool-cases (m.sender == m.recipient)) [
  | inl same ↦ ground (arith, valid, same)
  | inr differ ↦ elim (Bool-cases (strip m.capability == "")) [
    | inl blank ↦ ground (arith, valid, differ, blank)
    | inr full ↦ (differ, full)
  ]
]

Answers-IsValid :
    (strip : String → String) (m r : AgentMessage) → IsValid strip m → Answers m r → IsValid strip r
unfolding validate
Answers-IsValid strip m r valid (s, t, c, k, a) =
    let (differ, full) = IsValid-parts strip m valid in
    let no_request = reply_no_request r.message_type a in
    ground (
      arith,
      ==_iff m.sender m.recipient,
      ==_iff r.sender r.recipient,
      s,
      t,
      c,
      k,
      a,
      full,
      no_request,
    )

module _ {W : Type 0} (rt : Runtime W) (m : AgentMessage) where
  -- A call that returned a valid answer.
  abbrev pub Replies : Outcome AgentMessage × W → Type 0
  Replies (returned r, w) = IsValid rt.strip r × Answers m r
  Replies (raised exc, w) = ⊥

module _ {W : Type 0} (rt : Runtime W) (m : AgentMessage) (valid : IsValid rt.strip m) where
  reply-Replies :
      (ok : Bool) (t : MessageType) (payload : Props) (w : W)
      → is_reply t ≡ true
      → Replies rt m (reply rt m ok t payload w)
  unfolding reply make_message
  reply-Replies ok t payload w a =
      let r : AgentMessage = record {
        id = (rt.stamps.uuid4 w).0;
        sent_at = (rt.stamps.now (rt.stamps.uuid4 w).1).0;
        sender = m.recipient;
        recipient = m.sender;
        message_type = t;
        capability = m.capability;
        payload = payload;
        correlation_id = some m.id;
      } in
      let answers : Answers m r = (refl, refl, refl, refl, a) in
      let checked = Answers-IsValid rt.strip m r valid answers in rw checked (checked, answers)

  settle-Replies : (c : Capture Props × W) → Replies rt m (settle rt m c)
  unfolding settle
  settle-Replies (completed payload, w) = reply-Replies true response payload w refl
  settle-Replies (captured fault, w) = reply-Replies false error _ w refl

  answer-Replies :
      (handler : Option (MessageHandler W)) (allowed : List String) (w : W)
      → Replies rt m (answer rt m handler allowed w)
  unfolding answer
  answer-Replies none allowed w = reply-Replies false error _ w refl
  answer-Replies (some handler) allowed w = elim (Bool-cases (caller_authorized allowed m.sender)) [
    | inl fine ↦ rw fine (
        settle-Replies
          (contain rt.sink m.recipient "kernel.bus" (some m.capability) (handler m.payload w)))
    | inr barred ↦ rw barred (reply-Replies false error _ w refl)
  ]

  -- A request that is a valid message never raises, whatever the handlers do: it returns a valid
  -- message from the recipient to the sender, of the same capability, on the request's thread.
  pub request-Replies : (bus : InProcessBus W) (w : W) → Replies rt m (request rt m bus w)
  unfolding request
  request-Replies bus w =
      answer-Replies (get (m.recipient, m.capability) bus.handlers) (allowed_for rt m bus) w
