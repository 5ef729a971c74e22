-- ===== src/Kernel/WorkLoop/Ledger.antt =====
-- The retry ledger's invariant (kernel/work_loop_state.py), and what a run of failures comes to.
use trading_agents.Prelude.{
  All, filter, not, leb, ==_refl, ◌∙◌, ℕ, ◌+◌, ◌≤◌, ◌<◌, ◌≡◌, refl, String, Bool, true, false,
  Option, none, some, List, [], ◌∷◌, arith, elem, length, string_eq, ==_iff,
}
use native.Mathlib.Decide.{dec_lt}
use trading_agents.Prelude.Dict.{get, get-put, get-pop}
use trading_agents.Kernel.WorkLoop.Policy.{WorkLoopPolicy}
use trading_agents.Kernel.WorkLoop.State.{
  FailureRecord, QuarantineSink, WorkLoopState, sink_says, attempts_of, next_failure, is_waiting,
  is_quarantined, is_skipped, eligible_items, record_failure, record_success,
}

-- What the ledger may say of one key under a policy: a record counts at least one attempt and
-- fewer than the cap, and no quarantined key has a record.
abbrev pub KeyIsValid : WorkLoopPolicy → Option FailureRecord → Bool → Type 0
KeyIsValid policy none q = Unit
KeyIsValid policy (some r) q =
    (1 ≤ r.attempts) × (r.attempts < policy.max_attempts_before_quarantine) × (q ≡ false)

pub record IsValid (policy : WorkLoopPolicy) (s : WorkLoopState) : Type 0 where
  pub at_key : (k : String) → KeyIsValid policy (get k s.failures) (elem k s.quarantined)

pub record_success-IsValid :
    (policy : WorkLoopPolicy) (key : String) (s : WorkLoopState)
    → IsValid policy s
    → IsValid policy (record_success key s)
unfolding record_success
record_success-IsValid policy key s v = record {
  at_key = λ k. ground (arith, get-pop key k s.failures, v.at_key k);
}

module _ {W : Type 0} (sink : Option (QuarantineSink W)) (policy : WorkLoopPolicy) where
  -- A failure keeps the ledger well formed, whatever the sink answers.
  pub record_failure-IsValid :
      (now : ℕ) (key reason : String) (s : WorkLoopState) (w : W)
      → IsValid policy s
      → IsValid policy (record_failure sink policy now key reason s w).1
  unfolding record_failure is_quarantined
  record_failure-IsValid now key reason s w v = record {
    at_key = λ k. ground (
      arith,
      get-pop key k s.failures,
      ==_iff key k,
      v.at_key k,
      v.at_key key,
      get-put key k (next_failure policy now (attempts_of (get key s.failures) + 1) reason)
          s.failures,
    );
  }

  -- Quarantine is for good: no failure and no success takes a key out.
  pub record_failure_keeps :
      (now : ℕ) (key reason k : String) (s : WorkLoopState) (w : W)
      → elem k s.quarantined ≡ true
      → elem k (record_failure sink policy now key reason s w).1.quarantined ≡ true
  unfolding record_failure is_quarantined
  record_failure_keeps now key reason k s w h = ground arith

  -- A failure short of the cap counts one attempt, waits its delay, and leaves the world alone.
  record_failure_retries :
      (now : ℕ) (key reason : String) (s : WorkLoopState) (w : W)
      → is_quarantined sink s w key ≡ false
      → attempts_of (get key s.failures) + 1 < policy.max_attempts_before_quarantine
      → let (verdict, s', w') = record_failure sink policy now key reason s w in
        (attempts_of (get key s'.failures) ≡ attempts_of (get key s.failures) + 1)
        × (s'.quarantined ≡ s.quarantined)
        × (w' ≡ w)
  unfolding record_failure
  record_failure_retries now key reason s w q h = ground (
    arith,
    ==_refl key,
    get-put key key (next_failure policy now (attempts_of (get key s.failures) + 1) reason)
        s.failures,
  )

  record_failure_gives_up :
      (now : ℕ) (key reason : String) (s : WorkLoopState) (w : W)
      → is_quarantined sink s w key ≡ false
      → policy.max_attempts_before_quarantine ≤ attempts_of (get key s.failures) + 1
      → elem key (record_failure sink policy now key reason s w).1.quarantined ≡ true
  unfolding record_failure
  record_failure_gives_up now key reason s w q h = ground (arith, ==_refl key)

  -- Failures of one item, each at its time and for its reason.
  abbrev pub fail_each : String → List (ℕ × String) → WorkLoopState → W → WorkLoopState × W
  fail_each key [] s w = (s, w)
  fail_each key ((now, reason) ∷ fs) s w =
      let (verdict, s', w') = record_failure sink policy now key reason s w in
      fail_each key fs s' w'

  fail_each_keeps :
      (key : String) (fs : List (ℕ × String)) (s : WorkLoopState) (w : W)
      → elem key s.quarantined ≡ true
      → elem key (fail_each key fs s w).0.quarantined ≡ true
  fail_each_keeps key [] s w h = h
  fail_each_keeps key ((now, reason) ∷ fs) s w h =
      let (verdict, s', w') = record_failure sink policy now key reason s w in
      fail_each_keeps key fs s' w' (record_failure_keeps now key reason key s w h)

  fail_each_below :
      (key : String) (fs : List (ℕ × String)) (s : WorkLoopState) (w : W)
      → is_quarantined sink s w key ≡ false
      → attempts_of (get key s.failures) + length fs < policy.max_attempts_before_quarantine
      → (elem key (fail_each key fs s w).0.quarantined ≡ false)
        × (attempts_of (get key (fail_each key fs s w).0.failures)
            ≡ attempts_of (get key s.failures) + length fs)
        × ((fail_each key fs s w).1 ≡ w)
  unfolding is_quarantined
  fail_each_below key [] s w q h = ground arith
  fail_each_below key ((now, reason) ∷ fs) s w q h =
      let (verdict, s', w') = record_failure sink policy now key reason s w in
      let step = record_failure_retries now key reason s w q (omega arith) in
      let rest = fail_each_below key fs s' w' (rw (step.1, step.2) q) (omega (arith, step.0)) in
      (rest.0, omega (arith, rest.1, step.0), rest.2 ∙ step.2)

  fail_each_at :
      (key : String) (fs : List (ℕ × String)) (s : WorkLoopState) (w : W)
      → is_quarantined sink s w key ≡ false
      → attempts_of (get key s.failures) < policy.max_attempts_before_quarantine
      → policy.max_attempts_before_quarantine ≤ attempts_of (get key s.failures) + length fs
      → elem key (fail_each key fs s w).0.quarantined ≡ true
  unfolding is_quarantined
  fail_each_at key [] s w q below h = absurd (omega arith)
  fail_each_at key ((now, reason) ∷ fs) s w q below h =
      let (verdict, s', w') = record_failure sink policy now key reason s w in
      elim (dec_lt (attempts_of (get key s.failures) + 1) policy.max_attempts_before_quarantine) [
        | yes more ↦
            let step = record_failure_retries now key reason s w q more in
            fail_each_at key fs s' w' (rw (step.1, step.2) q) (omega (arith, step.0))
              (omega (arith, step.0))
        | no last ↦
            fail_each_keeps key fs s' w'
              (record_failure_gives_up now key reason s w q (omega arith))
      ]

  -- An item with no record that fails again and again is quarantined by exactly the failure that
  -- reaches the cap: not before, when the world is untouched too, and for good from then on.
  pub fail_each_quarantines :
      (key : String) (fs : List (ℕ × String)) (s : WorkLoopState) (w : W)
      → 1 ≤ policy.max_attempts_before_quarantine
      → get key s.failures ≡ none
      → is_quarantined sink s w key ≡ false
      → (elem key (fail_each key fs s w).0.quarantined
          ≡ leb policy.max_attempts_before_quarantine (length fs))
        × (length fs < policy.max_attempts_before_quarantine → (fail_each key fs s w).1 ≡ w)
  fail_each_quarantines key fs s w cap new q =
      let none_yet : attempts_of (get key s.failures) ≡ 0 = rw new in
      elim (dec_lt (length fs) policy.max_attempts_before_quarantine) [
        | yes less ↦
            let below = fail_each_below key fs s w q (omega (arith, none_yet)) in
            (ground (arith, below.0, less), λ _. below.2)
        | no more ↦
            let full =
              fail_each_at key fs s w q (omega (arith, none_yet)) (omega (arith, none_yet)) in
            (ground (arith, full, more), λ less. absurd (more less))
      ]

module _ {T W : Type 0} (sink : Option (QuarantineSink W)) (item_key : T → String) where
  -- What an item that a pass may start has: no quarantine, and no retry time still to come.
  abbrev pub IsStartable : WorkLoopState → W → ℕ → T → Type 0
  IsStartable s w now item =
      (elem (item_key item) s.quarantined ≡ false)
      × (sink_says sink (item_key item) w ≡ false)
      × (is_waiting now (get (item_key item) s.failures) ≡ false)

  -- Every item that a pass may start is startable, the order is that of the query, and what is not
  -- ready is counted as skipped.
  pub eligible_items_exact :
      (s : WorkLoopState) (w : W) (now : ℕ) (items : List T)
      → let (ready, skipped) = eligible_items sink item_key s w now items in
        All (IsStartable s w now) ready
        × (ready ≡ filter (λ item. not (is_skipped sink s w now (item_key item))) items)
        × (length ready + skipped ≡ length items)
  unfolding eligible_items is_quarantined
  eligible_items_exact s w now [] = (tt, refl, omega arith)
  eligible_items_exact s w now (item ∷ items) =
      let ih = eligible_items_exact s w now items in
      (ground (arith, ih.0), ground (arith, ih.1), ground (arith, ih.2))
