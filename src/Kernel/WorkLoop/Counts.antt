-- ===== src/Kernel/WorkLoop/Counts.antt =====
-- The accounts of one pass (kernel/work_loop.py, `run_once`): what was attempted, and how it ended.
use trading_agents.Prelude.{
  ℕ, suc, ◌+◌, ◌≤◌, ◌≡◌, refl, String, false, Option, List, [], ◌∷◌, ◌∙◌, arith, length,
  length-append, map, string_eq,
}
use trading_agents.Kernel.WorkLoop.Policy.{WorkLoopPolicy}
use trading_agents.Kernel.WorkLoop.State.{QuarantineSink, WorkLoopState, eligible_items}
use trading_agents.Kernel.WorkLoop.Ledger.{eligible_items_exact}
use trading_agents.Kernel.WorkLoop.Run.{
  Outcome, returned, raised, Env, Pass, first_pass, conclude, attempt, attempt_all, settle,
  settle_all, work_through, run_once,
}

module _ {T W : Type 0} (env : Env T W) (sink : Option (QuarantineSink W)) (policy : WorkLoopPolicy)
    (now : ℕ) where
  -- While items are attempted: each ends as failed or completed.
  record IsAttempting (p : Pass T) : Type 0 where
    split : p.attempted ≡ p.failed + length p.completed
    unsettled : p.no_progress + p.advanced ≡ 0
    caught : p.quarantined ≤ p.failed

  -- While completed items are settled, with some still to come.
  record IsSettling (attempted failed to_come : ℕ) (p : Pass T) : Type 0 where
    same_attempted : p.attempted ≡ attempted
    same_failed : p.failed ≡ failed
    split : attempted ≡ failed + p.no_progress + p.advanced + to_come
    caught : p.quarantined ≤ failed + p.no_progress

  attempted-conclude :
      (item : T) (outcome : Outcome) (p : Pass T) (s : WorkLoopState) (w : W)
      → (conclude env sink policy now item outcome p s w).0.attempted ≡ p.attempted
  unfolding conclude
  attempted-conclude item returned p s w = refl
  attempted-conclude item (raised class text) p s w = refl

  attempted-attempt :
      (item : T) (p : Pass T) (s : WorkLoopState) (w : W)
      → (attempt env sink policy now item p s w).0.attempted ≡ p.attempted + 1
  unfolding attempt
  attempted-attempt item p s w =
      attempted-conclude item (env.process_one item w).0 (record p { attempted = p.attempted + 1 })
        s (env.process_one item w).1

  conclude-IsAttempting :
      (item : T) (outcome : Outcome) (p : Pass T) (s : WorkLoopState) (w : W)
      → IsAttempting p
      → IsAttempting
          (conclude env sink policy now item outcome
            (record p { attempted = p.attempted + 1 })
            s
            w).0
  unfolding conclude
  conclude-IsAttempting item returned p s w v = record {
    split = omega (arith, v.split, length-append p.completed (item ∷ []));
    unsettled = v.unsettled;
    caught = v.caught;
  }
  conclude-IsAttempting item (raised class text) p s w v = ground arith

  attempt_all-IsAttempting :
      (ready : List T) (p : Pass T) (s : WorkLoopState) (w : W)
      → IsAttempting p
      → IsAttempting (attempt_all env sink policy now ready p s w).0
        × ((attempt_all env sink policy now ready p s w).0.attempted ≤ p.attempted + length ready)
  unfolding attempt_all
  attempt_all-IsAttempting [] p s w v = (v, omega arith)
  attempt_all-IsAttempting (item ∷ ready) p s w v =
      let (stop, w1) = env.should_stop w in
      let (p', s', w') = attempt env sink policy now item p s w1 in
      let v' =
        conclude-IsAttempting item (env.process_one item w1).0 p s (env.process_one item w1).1 v in
      ground (arith, attempt_all-IsAttempting ready p' s' w' v', attempted-attempt item p s w1)

  settle-IsSettling :
      (remaining : List String) (item : T) (attempted failed to_come : ℕ) (p : Pass T)
      (s : WorkLoopState) (w : W)
      → IsSettling attempted failed (suc to_come) p
      → IsSettling attempted failed to_come (settle env sink policy now remaining item p s w).0
  unfolding settle
  settle-IsSettling remaining item attempted failed to_come p s w v = ground arith

  settle_all-IsSettling :
      (remaining : List String) (items : List T) (attempted failed : ℕ) (p : Pass T)
      (s : WorkLoopState) (w : W)
      → IsSettling attempted failed (length items) p
      → IsSettling attempted failed 0 (settle_all env sink policy now remaining items p s w).0
  unfolding settle_all
  settle_all-IsSettling remaining [] attempted failed p s w v = v
  settle_all-IsSettling remaining (item ∷ items) attempted failed p s w v =
      let (p', s', w') = settle env sink policy now remaining item p s w in
      settle_all-IsSettling remaining items attempted failed p' s' w'
        (settle-IsSettling remaining item attempted failed (length items) p s w v)

  -- The whole of `work_through`, from the counters at 0.
  work_through-counts :
      (ready : List T) (s : WorkLoopState) (w : W)
      → let p = (work_through env sink policy now ready s w).0 in
        (p.attempted ≡ p.advanced + p.failed + p.no_progress)
        × (p.quarantined ≤ p.failed + p.no_progress)
        × (p.attempted ≤ length ready)
  unfolding work_through
  work_through-counts ready s w =
      let (p1, s1, w1) = attempt_all env sink policy now ready first_pass s w in
      let (left, w2) = env.find_pending w1 in
      let started = attempt_all-IsAttempting ready first_pass s w (omega arith) in
      let v = started.0 in
      let settled =
        settle_all-IsSettling (map env.item_key left) p1.completed p1.attempted p1.failed p1 s1 w2
          (record {
            same_attempted = refl;
            same_failed = refl;
            split = omega (arith, v.split, v.unsettled);
            caught = omega (arith, v.caught, v.unsettled);
          }) in
      (omega (arith, settled), omega (arith, settled), omega (arith, settled, started.1))

  -- With no stop asked for, every ready item is attempted.
  attempt_all-attempts :
      ((v : W) → (env.should_stop v).0 ≡ false)
      → (ready : List T) (p : Pass T) (s : WorkLoopState) (w : W)
      → (attempt_all env sink policy now ready p s w).0.attempted ≡ p.attempted + length ready
  unfolding attempt_all
  attempt_all-attempts never [] p s w = omega arith
  attempt_all-attempts never (item ∷ ready) p s w =
      let (stop, w1) = env.should_stop w in
      let (p', s', w') = attempt env sink policy now item p s w1 in
      rw (never w)
        (omega (arith, attempt_all-attempts never ready p' s' w', attempted-attempt item p s w1))

  settled-attempted :
      (remaining : List String) (item : T) (p : Pass T) (s : WorkLoopState) (w : W)
      → (settle env sink policy now remaining item p s w).0.attempted ≡ p.attempted
  unfolding settle
  settled-attempted remaining item p s w = ground arith

  settle_all-attempted :
      (remaining : List String) (items : List T) (p : Pass T) (s : WorkLoopState) (w : W)
      → (settle_all env sink policy now remaining items p s w).0.attempted ≡ p.attempted
  unfolding settle_all
  settle_all-attempted remaining [] p s w = refl
  settle_all-attempted remaining (item ∷ items) p s w =
      let (p', s', w') = settle env sink policy now remaining item p s w in
      settle_all-attempted remaining items p' s' w' ∙ settled-attempted remaining item p s w

  work_through-attempts :
      ((v : W) → (env.should_stop v).0 ≡ false)
      → (ready : List T) (s : WorkLoopState) (w : W)
      → (work_through env sink policy now ready s w).0.attempted ≡ length ready
  unfolding work_through
  work_through-attempts never ready s w =
      let (p1, s1, w1) = attempt_all env sink policy now ready first_pass s w in
      let (left, w2) = env.find_pending w1 in
      settle_all-attempted (map env.item_key left) p1.completed p1 s1 w2
      ∙ (attempt_all-attempts never ready first_pass s w ∙ omega arith)

module _ {T W : Type 0} (env : Env T W) (sink : Option (QuarantineSink W))
    (policy : WorkLoopPolicy) where
  -- Every attempt ends as exactly one of advanced, failed and no progress; no more items are
  -- quarantined than attempts went wrong; and what was attempted or skipped was found.
  pub run_once_accounts :
      (s : WorkLoopState) (w : W)
      → let r = (run_once env sink policy s w).0 in
        (r.attempted ≡ r.advanced + r.failed + r.no_progress)
        × (r.quarantined ≤ r.failed + r.no_progress)
        × (r.attempted + r.skipped ≤ r.found)
  unfolding run_once
  run_once_accounts s w =
      let (now, w1) = env.clock w in
      let (items, w2) = env.find_pending w1 in
      let eligible = eligible_items_exact sink env.item_key s w2 now items in
      let counts =
        work_through-counts env sink policy now (eligible_items sink env.item_key s w2 now items).0
          s w2 in
      (counts.0, counts.1, omega (arith, counts.2, eligible.2))

  -- With no stop asked for, every item that was found is either attempted or skipped.
  pub run_once_covers :
      ((v : W) → (env.should_stop v).0 ≡ false)
      → (s : WorkLoopState) (w : W)
      → let r = (run_once env sink policy s w).0 in r.attempted + r.skipped ≡ r.found
  unfolding run_once
  run_once_covers never s w =
      let (now, w1) = env.clock w in
      let (items, w2) = env.find_pending w1 in
      omega (
        arith,
        work_through-attempts env sink policy now never
            (eligible_items sink env.item_key s w2 now items).0 s w2,
        (eligible_items_exact sink env.item_key s w2 now items).2,
      )
