-- ===== src/Kernel/Envelope.antt =====
-- kernel/envelope.py: the message envelope and its validation. `strip` is Python's `str.strip`.
use trading_agents.Prelude.{
  ℕ, String, Bool, true, false, not, ◌&&◌, Option, none, ◌==◌, if◌then◌else◌, string_eq,
}
use trading_agents.Prelude.Dict.{is_some}
use trading_agents.Kernel.Graph.Store.{Props}
use trading_agents.Kernel.Errors.{Outcome, returned, raised}

pub data MessageType : Type 0 where
  request response notification error : MessageType

pub record AgentMessage : Type 0 where
  pub id : String
  pub sent_at : ℕ
  pub sender : String
  pub recipient : String
  pub message_type : MessageType
  pub capability : String
  pub payload : Props
  pub correlation_id : Option String

-- What the world gives to a new envelope: its id and its time.
pub record Stamps (W : Type 0) : Type 0 where
  pub uuid4 : W → String × W
  pub now : W → ℕ × W

abbrev pub is_request : MessageType → Bool
is_request request = true
is_request _ = false

abbrev pub is_reply : MessageType → Bool
is_reply response = true
is_reply error = true
is_reply _ = false

abbrev pub invalid : String → Outcome AgentMessage
invalid text = raised (record { type_name = "ValidationError"; text = text; traceback = none })

module _ (strip : String → String) where
  -- `_validate`, of the fields as they were given.
  unfoldable pub validate : AgentMessage → Outcome AgentMessage
  validate m =
      if m.sender == m.recipient
      then invalid "sender and recipient must differ"
      else if is_request m.message_type && is_some m.correlation_id
      then invalid "request messages must not carry a correlation_id"
      else if is_reply m.message_type && not (is_some m.correlation_id)
      then invalid "response/error messages must carry a correlation_id"
      else if strip m.capability == ""
      then invalid "capability must be non-empty"
      else returned m

  module _ {W : Type 0} (stamps : Stamps W) where
    -- The constructor.
    unfoldable pub make_message :
        String
        → String
        → MessageType
        → String
        → Props
        → Option String
        → W
        → Outcome AgentMessage × W
    make_message sender recipient message_type capability payload correlation_id w =
        let (id, w1) = stamps.uuid4 w in
        let (sent_at, w2) = stamps.now w1 in
        (
          validate (record {
            id = id;
            sent_at = sent_at;
            sender = sender;
            recipient = recipient;
            message_type = message_type;
            capability = capability;
            payload = payload;
            correlation_id = correlation_id;
          }),
          w2,
        )
