-- ===== src/Kernel/WorkLoop/Loop.antt =====
-- kernel/work_loop.py, `work_loop`: passes until a stop is asked for or the passes are used up. The
-- loop takes fuel: one unit for each test of its condition.
use trading_agents.Prelude.{
  ℕ, zero, suc, ◌+◌, ◌≤◌, ◌<◌, ◌≡◌, Bool, true, false, Option, none, some, List, [], ◌∷◌, ◌++◌,
  arith, length, length-append, ltb, lt→ltb, if◌then◌else◌, Bool-cases, inl, inr,
}
use native.Mathlib.Decide.{dec_lt}
use trading_agents.Kernel.Stop.{Step, end_loop}
use trading_agents.Kernel.WorkLoop.Policy.{WorkLoopPolicy, resolve_policy}
use trading_agents.Kernel.WorkLoop.State.{
  RunOnceResult, QuarantineSink, WorkLoopState, made_progress,
}
use trading_agents.Kernel.WorkLoop.Ledger.{IsValid}
use trading_agents.Kernel.WorkLoop.Run.{Env, run_once, sleep_duration}
use trading_agents.Kernel.WorkLoop.Safety.{run_once-IsValid}

-- What the loop is handed beside the work: the sleep, the flush of the faults, and what it closes.
pub record Surroundings (W : Type 0) : Type 0 where
  pub pause : ℕ → W → W
  pub flush_faults : Option (W → W)
  pub closing : List (Step W)

-- `max_iterations is None or len(results) < max_iterations`
abbrev pub has_room : Option ℕ → ℕ → Bool
has_room none n = true
has_room (some max_iterations) n = ltb n max_iterations

module _ {T W : Type 0} (env : Env T W) (around : Surroundings W) (sink : Option (QuarantineSink W))
    (policy : WorkLoopPolicy) where
  abbrev flush : W → W
  flush w = elim around.flush_faults [ none ↦ w | some run ↦ run w ]

  -- What follows a pass in the loop's body.
  unfoldable pub after_pass : RunOnceResult → W → W
  after_pass result w =
      let w1 = if ltb 0 result.quarantined then flush w else w in
      if made_progress result
      then w1
      else around.pause (sleep_duration policy.poll_interval_seconds result) w1

  unfoldable pub rounds :
      ℕ
      → Option ℕ
      → List RunOnceResult
      → WorkLoopState
      → W
      → Option (List RunOnceResult × WorkLoopState × W)
  unfolding after_pass
  rounds zero max_iterations results s w = none
  rounds (suc fuel) max_iterations results s w =
      let (stop, w1) = env.should_stop w in
      let (result, s', w2) = run_once env sink policy s w1 in
      let rest = rounds fuel max_iterations (results ++ result ∷ []) s' (after_pass result w2) in
      if stop
      then some (results, s, w1)
      else if has_room max_iterations (length results)
      then rest
      else some (results, s, w1)

  -- The end of the loop: the exit status that `end_loop` raises, if any.
  unfoldable pub leave : W → Option ℕ × W
  leave w =
      let (stop, w1) = env.should_stop w in
      if stop then end_loop around.closing w1 else (none, flush w1)

  -- `rounds` in a bounded loop: it has a result once the fuel passes the passes still allowed.
  rounds_bounded :
      (fuel n : ℕ) (results : List RunOnceResult) (s : WorkLoopState) (w : W)
      → length results ≤ n
      → n < fuel + length results
      → IsValid policy s
      → (r : List RunOnceResult × WorkLoopState × W) × (rounds fuel (some n) results s w ≡ some r)
        × (length r.0 ≤ n)
        × IsValid policy r.1
        × (((v : W) → (env.should_stop v).0 ≡ false) → length r.0 ≡ n)
  unfolding rounds
  rounds_bounded zero n results s w le lt valid = absurd (omega arith)
  rounds_bounded (suc fuel) n results s w le lt valid =
      let (stop, w1) = env.should_stop w in
      let (result, s', w2) = run_once env sink policy s w1 in
      elim (Bool-cases stop) [
        | inl e ↦ ((results, s, w1), rw e, le, valid, λ never. cc (never w))
        | inr e ↦ elim (dec_lt (length results) n) [
          | yes room ↦
              let grown = length-append results (result ∷ []) in
              let rest =
                rounds_bounded fuel n (results ++ result ∷ []) s' (after_pass result w2)
                  (omega (arith, grown)) (omega (arith, grown))
                  (run_once-IsValid env sink policy s w1 valid).0 in
              (rest.0, rw (e, lt→ltb _ _ room) rest.1, rest.2, rest.3, rest.4)
          | no full ↦
              ((results, s, w1), rw e (ground (arith, full)), le, valid, λ never. omega arith)
        ]
      ]

  rounds_stopped :
      (fuel : ℕ) (max_iterations : Option ℕ) (results : List RunOnceResult) (s : WorkLoopState)
      (w : W)
      → (env.should_stop w).0 ≡ true
      → rounds (suc fuel) max_iterations results s w ≡ some (results, s, (env.should_stop w).1)
  unfolding rounds
  rounds_stopped fuel max_iterations results s w h = ground arith

unfoldable pub work_loop :
    {T W : Type 0}
    → Env T W
    → Surroundings W
    → Option (QuarantineSink W)
    → WorkLoopPolicy
    → Option ℕ
    → ℕ
    → Option ℕ
    → WorkLoopState
    → W
    → Option (List RunOnceResult × WorkLoopState × Option ℕ × W)
unfolding rounds leave
work_loop env around sink policy poll_interval fuel max_iterations s w =
    let resolved = resolve_policy policy poll_interval in
    elim (rounds env around sink resolved fuel max_iterations [] s w) [
      | none ↦ none
      | some (results, s', w') ↦
          let (status, w'') = leave env around sink resolved w' in some (results, s', status, w'')
    ]

module _ {T W : Type 0} (env : Env T W) (around : Surroundings W) (sink : Option (QuarantineSink W))
    (policy : WorkLoopPolicy) (poll_interval : Option ℕ) where
  -- A loop with a cap on its passes ends, with a well-formed ledger and at most that many passes;
  -- with exactly that many where no stop is asked for. One more unit of fuel than passes is enough.
  pub work_loop_ends :
      (fuel n : ℕ) (s : WorkLoopState) (w : W)
      → n < fuel
      → IsValid (resolve_policy policy poll_interval) s
      → (r : List RunOnceResult × WorkLoopState × Option ℕ × W) × (work_loop env around sink policy
            poll_interval fuel
            (some n)
            s
            w
          ≡ some r)
        × (length r.0 ≤ n)
        × IsValid (resolve_policy policy poll_interval) r.1
        × (((v : W) → (env.should_stop v).0 ≡ false) → length r.0 ≡ n)
  unfolding work_loop
  work_loop_ends fuel n s w lt valid =
      let resolved = resolve_policy policy poll_interval in
      let (r, e, le, valid', all) =
        rounds_bounded env around sink resolved fuel n [] s w (omega arith) (omega arith) valid in
      let (status, w') = leave env around sink resolved r.2 in
      ((r.0, r.1, status, w'), rw (e, work_loop), le, valid', all)

  -- A stop that is asked for before the first pass starts no item: nothing is queried, the ledger
  -- is as it was, and the loop goes straight to its closing.
  pub work_loop_stopped :
      (fuel : ℕ) (max_iterations : Option ℕ) (s : WorkLoopState) (w : W)
      → (env.should_stop w).0 ≡ true
      → work_loop env around sink policy poll_interval (suc fuel) max_iterations s w ≡ (
          let (status, w') =
            leave env around sink (resolve_policy policy poll_interval) (env.should_stop w).1 in
          some ([], s, status, w'))
  unfolding work_loop
  work_loop_stopped fuel max_iterations s w h = rw (
    rounds_stopped env around sink (resolve_policy policy poll_interval) fuel max_iterations [] s w
        h,
    work_loop,
  )
