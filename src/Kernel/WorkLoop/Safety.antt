-- ===== src/Kernel/WorkLoop/Safety.antt =====
-- What a whole pass keeps of the retry ledger (kernel/work_loop.py, `run_once`).
use trading_agents.Prelude.{
  ℕ, ◌≡◌, String, true, Option, List, [], ◌∷◌, map, elem, string_eq, Bool-cases, inl, inr,
}
use trading_agents.Kernel.WorkLoop.Policy.{WorkLoopPolicy}
use trading_agents.Kernel.WorkLoop.State.{
  QuarantineSink, WorkLoopState, eligible_items, record_failure, record_success,
}
use trading_agents.Kernel.WorkLoop.Ledger.{
  IsValid, record_failure-IsValid, record_success-IsValid, record_failure_keeps,
}
use trading_agents.Kernel.WorkLoop.Run.{
  Outcome, returned, raised, Env, Pass, first_pass, conclude, attempt, attempt_all, settle,
  settle_all, run_once,
}

module _ {T W : Type 0} (env : Env T W) (sink : Option (QuarantineSink W)) (policy : WorkLoopPolicy)
    (P : WorkLoopState → Type 0)
    (failure : (now : ℕ) (key reason : String) (s : WorkLoopState) (w : W)
      → P s
      → P (record_failure sink policy now key reason s w).1)
    (success : (key : String) (s : WorkLoopState) → P s → P (record_success key s)) where
  conclude_keeps :
      (now : ℕ) (item : T) (outcome : Outcome) (p : Pass T) (s : WorkLoopState) (w : W)
      → P s
      → P (conclude env sink policy now item outcome p s w).1
  unfolding conclude
  conclude_keeps now item returned p s w h = h
  conclude_keeps now item (raised class text) p s w h = failure now _ _ s w h

  attempt_all_keeps :
      (now : ℕ) (ready : List T) (p : Pass T) (s : WorkLoopState) (w : W)
      → P s
      → P (attempt_all env sink policy now ready p s w).1
  unfolding attempt_all
  attempt_all_keeps now [] p s w h = h
  attempt_all_keeps now (item ∷ ready) p s w h =
      let (stop, w1) = env.should_stop w in
      let (outcome, w2) = env.process_one item w1 in
      let (p', s', w') = attempt env sink policy now item p s w1 in
      let rest = attempt_all_keeps now ready p' s' w' (conclude_keeps now item outcome _ s w2 h) in
      elim (Bool-cases stop) [ inl e ↦ rw e h | inr e ↦ rw e rest ]

  settle_keeps :
      (now : ℕ) (remaining : List String) (item : T) (p : Pass T) (s : WorkLoopState) (w : W)
      → P s
      → P (settle env sink policy now remaining item p s w).1
  unfolding settle
  settle_keeps now remaining item p s w h = elim (Bool-cases (elem (env.item_key item) remaining)) [
    | inl e ↦ rw e (failure now _ _ s w h)
    | inr e ↦ rw e (success _ s h)
  ]

  settle_all_keeps :
      (now : ℕ) (remaining : List String) (items : List T) (p : Pass T) (s : WorkLoopState) (w : W)
      → P s
      → P (settle_all env sink policy now remaining items p s w).1
  unfolding settle_all
  settle_all_keeps now remaining [] p s w h = h
  settle_all_keeps now remaining (item ∷ items) p s w h =
      let (p', s', w') = settle env sink policy now remaining item p s w in
      settle_all_keeps now remaining items p' s' w' (settle_keeps now remaining item p s w h)

  run_once_keeps : (s : WorkLoopState) (w : W) → P s → P (run_once env sink policy s w).1
  unfolding run_once
  run_once_keeps s w h =
      let (now, w1) = env.clock w in
      let (items, w2) = env.find_pending w1 in
      let (ready, skipped) = eligible_items sink env.item_key s w2 now items in
      let (p1, s1, w3) = attempt_all env sink policy now ready first_pass s w2 in
      let (left, w4) = env.find_pending w3 in
      settle_all_keeps now (map env.item_key left) p1.completed p1 s1 w4
        (attempt_all_keeps now ready first_pass s w2 h)

module _ {T W : Type 0} (env : Env T W) (sink : Option (QuarantineSink W))
    (policy : WorkLoopPolicy) where
  -- A pass keeps the ledger well formed, and never takes a key out of quarantine.
  pub run_once-IsValid :
      (s : WorkLoopState) (w : W)
      → IsValid policy s
      → IsValid policy (run_once env sink policy s w).1
        × ((k : String)
            → elem k s.quarantined ≡ true
            → elem k (run_once env sink policy s w).1.quarantined ≡ true)
  run_once-IsValid s w v = (
    run_once_keeps env sink policy (IsValid policy) (record_failure-IsValid sink policy)
        (record_success-IsValid policy) s w v,
    λ k h.
        run_once_keeps env sink policy (λ t. elem k t.quarantined ≡ true)
          (λ now key reason t u. record_failure_keeps sink policy now key reason k t u)
          (λ key t old. unfold record_success in old) s w h,
  )
