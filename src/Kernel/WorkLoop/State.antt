-- ===== src/Kernel/WorkLoop/State.antt =====
-- kernel/work_loop_state.py: the retry ledger of one loop. A quarantine sink is a port: a pair of
-- operations on the world that it writes to.
use trading_agents.Prelude.{
  ℕ, ◌+◌, ◌-◌, min, String, Bool, true, false, ◌||◌, Option, none, some, List, [], ◌∷◌, ltb, leb,
  if◌then◌else◌, elem, fstring, string_eq,
}
use trading_agents.Prelude.Dict.{Dict, get, put, pop}
use trading_agents.Kernel.WorkLoop.Policy.{WorkLoopPolicy, backoff_delay}

pub record FailureRecord : Type 0 where
  pub attempts : ℕ
  pub next_retry_at : ℕ
  pub reason : String

pub record RunOnceResult : Type 0 where
  pub found : ℕ
  pub attempted : ℕ
  pub advanced : ℕ
  pub failed : ℕ
  pub no_progress : ℕ
  pub skipped : ℕ
  pub quarantined : ℕ
  pub next_retry_delay : Option ℕ

abbrev pub made_progress : RunOnceResult → Bool
made_progress r = ltb 0 r.advanced

pub record QuarantineSink (W : Type 0) : Type 0 where
  pub is_quarantined : String → W → Bool
  pub quarantine : String → ℕ → String → W → Bool × W

pub record WorkLoopState : Type 0 where
  pub failures : Dict String FailureRecord
  pub quarantined : List String

abbrev pub fresh : WorkLoopState
fresh = record { failures = []; quarantined = [] }

module _ {W : Type 0} where
  -- `self.quarantine_sink is not None and self.quarantine_sink.is_quarantined(item_key)`
  abbrev pub sink_says : Option (QuarantineSink W) → String → W → Bool
  sink_says none key w = false
  sink_says (some sink) key w = sink.is_quarantined key w

  -- `written`, and the world after the sink was told.
  abbrev pub tell_sink : Option (QuarantineSink W) → String → ℕ → String → W → Bool × W
  tell_sink none key attempts reason w = (false, w)
  tell_sink (some sink) key attempts reason w = sink.quarantine key attempts reason w

-- `previous.attempts if previous is not None else 0`
abbrev pub attempts_of : Option FailureRecord → ℕ
attempts_of none = 0
attempts_of (some record_) = record_.attempts

-- `record is not None and record.next_retry_at > now`
abbrev pub is_waiting : ℕ → Option FailureRecord → Bool
is_waiting now none = false
is_waiting now (some record_) = ltb now record_.next_retry_at

-- The record of an attempt that may be repeated after its delay.
abbrev pub next_failure : WorkLoopPolicy → ℕ → ℕ → String → FailureRecord
next_failure policy now attempts reason = record {
  attempts = attempts;
  next_retry_at = now + backoff_delay policy attempts;
  reason = reason;
}

module _ {W : Type 0} (sink : Option (QuarantineSink W)) where
  unfoldable pub is_quarantined : WorkLoopState → W → String → Bool
  is_quarantined s w key = elem key s.quarantined || sink_says sink key w

  -- Skipped by either `continue` of `eligible_items`.
  abbrev pub is_skipped : WorkLoopState → W → ℕ → String → Bool
  is_skipped s w now key = is_quarantined s w key || is_waiting now (get key s.failures)

  unfoldable pub eligible_items :
      {T : Type 0} → (T → String) → WorkLoopState → W → ℕ → List T → List T × ℕ
  eligible_items item_key s w now [] = ([], 0)
  eligible_items item_key s w now (item ∷ items) =
      let (ready, skipped) = eligible_items item_key s w now items in
      if is_skipped s w now (item_key item) then (ready, skipped + 1) else (item ∷ ready, skipped)

  -- The quarantine branch of `record_failure`.
  abbrev pub give_up :
      String → ℕ → String → WorkLoopState → W → (Bool × Option ℕ) × WorkLoopState × W
  give_up key attempts reason s w =
      let (written, w') = tell_sink sink key attempts reason w in
      (
        (written || true, none),
        record s { failures = pop key s.failures; quarantined = key ∷ s.quarantined },
        w',
      )

  -- The retry branch of `record_failure`.
  abbrev pub retry_later :
      WorkLoopPolicy
      → ℕ
      → String
      → ℕ
      → String
      → WorkLoopState
      → W
      → (Bool × Option ℕ) × WorkLoopState × W
  retry_later policy now key attempts reason s w = (
    (false, some (backoff_delay policy attempts)),
    record s { failures = put key (next_failure policy now attempts reason) s.failures },
    w,
  )

  unfoldable pub record_failure :
      WorkLoopPolicy
      → ℕ
      → String
      → String
      → WorkLoopState
      → W
      → (Bool × Option ℕ) × WorkLoopState × W
  record_failure policy now key reason s w =
      let attempts = attempts_of (get key s.failures) + 1 in
      if is_quarantined s w key
      then ((false, none), s, w)
      else if leb policy.max_attempts_before_quarantine attempts
      then give_up key attempts reason s w
      else retry_later policy now key attempts reason s w

unfoldable pub record_success : String → WorkLoopState → WorkLoopState
record_success key s = record s { failures = pop key s.failures }

-- The least of a list of delays, as `min(delays) if delays else None`.
unfoldable pub least : List ℕ → Option ℕ
least [] = none
least (d ∷ ds) = elim (least ds) [ none ↦ some d | some m ↦ some (min d m) ]

unfoldable pub waiting_delays : {T : Type 0} → (T → String) → WorkLoopState → ℕ → List T → List ℕ
waiting_delays item_key s now [] = []
waiting_delays item_key s now (item ∷ items) =
    let rest = waiting_delays item_key s now items in
    elim (get (item_key item) s.failures) [
      | none ↦ rest
      | some failure ↦
          if ltb now failure.next_retry_at then (failure.next_retry_at - now) ∷ rest else rest
    ]

unfoldable pub next_ready_delay :
    {T : Type 0} → (T → String) → WorkLoopState → ℕ → List T → Option ℕ
unfolding least waiting_delays
next_ready_delay item_key s now items = least (waiting_delays item_key s now items)

-- What `default_work_item_key` finds by `getattr`: the `node` of a wrapper, its `kind`, the item's
-- own label and key, and its `repr`.
pub record WorkItem : Type 0 where
  pub node : Option (String × String)
  pub kind : Option String
  pub identity : Option (String × String)
  pub repr : String

abbrev kind_prefix : Option String → String
kind_prefix none = ""
kind_prefix (some kind) = fstring (kind ∷ ":" ∷ [])

own_key : Option (String × String) → String → String
own_key none repr = repr
own_key (some (label, key)) repr = fstring (label ∷ ":" ∷ key ∷ [])

item_key_of : Option (String × String) → WorkItem → String
unfolding own_key
item_key_of none item = own_key item.identity item.repr
item_key_of (some (label, key)) item = fstring (kind_prefix item.kind ∷ label ∷ ":" ∷ key ∷ [])

unfoldable pub default_work_item_key : WorkItem → String
unfolding item_key_of
default_work_item_key item = item_key_of item.node item
