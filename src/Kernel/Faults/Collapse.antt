-- ===== src/Kernel/Faults/Collapse.antt =====
-- kernel/fault_collapse.py: the policy, the signature of a fault, and the window that it opens.
use trading_agents.Prelude.{
  ℕ, ◌+◌, String, Bool, ◌&&◌, Option, none, some, [], ◌∷◌, ◌==◌, leb, if◌then◌else◌, fstring,
  string_eq, nat_eq,
}
use trading_agents.Prelude.Int.{pos}
use trading_agents.Kernel.Graph.Value.{Value, null, num, str}
use trading_agents.Kernel.Graph.Store.{Props}
use trading_agents.Kernel.Errors.{AgentFault}

-- Seconds, as microseconds.
pub record FaultCollapsePolicy : Type 0 where
  pub collapse_window : ℕ

abbrev pub default_fault_collapse_policy : FaultCollapsePolicy
default_fault_collapse_policy = record { collapse_window = 3600000000 }

pub record FaultSignature : Type 0 where
  pub key : String
  pub message_digest : String

pub record FaultWindow : Type 0 where
  pub signature : FaultSignature
  pub first_fault : AgentFault
  pub first_fault_key : String
  pub suppressed_count : ℕ
  pub last_seen_at : Option String

abbrev pub occurrence_count : FaultWindow → ℕ
occurrence_count window = window.suppressed_count + 1

-- `capability or "none"`
abbrev pub capability_or_none : Option String → String
capability_or_none none = "none"
capability_or_none (some name) = if name == "" then "none" else name

abbrev pub optional : Option String → Value
optional none = null
optional (some text) = str text

unfoldable pub within_window : AgentFault → AgentFault → FaultCollapsePolicy → Bool
within_window first_fault fault policy =
    leb first_fault.occurred_at fault.occurred_at
    && leb fault.occurred_at (first_fault.occurred_at + policy.collapse_window)

module _ (isoformat : ℕ → String) (sha256 : String → String) where
  unfoldable pub fault_signature : AgentFault → FaultSignature
  fault_signature fault =
      let digest = sha256 fault.message in
      record {
        key = fstring (
            fault.source_agent
            ∷ ":"
            ∷ fault.source_module
            ∷ ":"
            ∷ capability_or_none fault.capability
            ∷ ":"
            ∷ fault.error_type
            ∷ ":"
            ∷ digest
            ∷ []);
        message_digest = digest;
      }

  abbrev pub suppression_key : FaultWindow → String
  suppression_key window = fstring (
      "fault-suppression:"
      ∷ window.signature.key
      ∷ ":"
      ∷ isoformat window.first_fault.occurred_at
      ∷ [])

  abbrev last_seen : FaultWindow → String
  last_seen window = elim window.last_seen_at [
    | none ↦ isoformat window.first_fault.occurred_at
    | some text ↦ if text == "" then isoformat window.first_fault.occurred_at else text
  ]

  abbrev pub suppression_props : FaultWindow → Props
  suppression_props window =
      ("first_fault_key", str window.first_fault_key)
      ∷ ("source_agent", str window.first_fault.source_agent)
      ∷ ("source_module", str window.first_fault.source_module)
      ∷ ("capability", optional window.first_fault.capability)
      ∷ ("error_type", str window.first_fault.error_type)
      ∷ ("message_digest", str window.signature.message_digest)
      ∷ ("window_started_at", str (isoformat window.first_fault.occurred_at))
      ∷ ("window_last_seen_at", str (last_seen window))
      ∷ ("occurrence_count", num (pos (occurrence_count window)))
      ∷ ("suppressed_count", num (pos window.suppressed_count))
      ∷ ("status", str "summarized")
      ∷ []
