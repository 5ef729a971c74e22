-- ===== src/Kernel/WorkLoop/Run.antt =====
-- kernel/work_loop.py: one pass, and the loop around it. What the caller injects (the queries, the
-- work, the clock, the stop signal, the sleep) are operations on a world of any type.
use trading_agents.Prelude.{
  ℕ, ◌+◌, min, String, Bool, true, false, Option, none, some, List, [], ◌∷◌, ◌++◌, if◌then◌else◌,
  map, elem, length, fstring, string_eq,
}
use trading_agents.Kernel.WorkLoop.Policy.{WorkLoopPolicy}
use trading_agents.Kernel.WorkLoop.State.{
  RunOnceResult, QuarantineSink, WorkLoopState, eligible_items, record_failure, record_success,
  least, next_ready_delay,
}

-- How `process_one(item)` ends: it returns, or raises an exception of a class with a text.
pub data Outcome : Type 0 where
  returned : Outcome
  raised : String → String → Outcome

pub record Env (T W : Type 0) : Type 0 where
  pub find_pending : W → List T × W
  pub process_one : T → W → Outcome × W
  pub should_stop : W → Bool × W
  pub clock : W → ℕ × W
  pub item_key : T → String

-- The counters and lists that `run_once` fills.
pub record Pass (T : Type 0) : Type 0 where
  pub completed : List T
  pub attempted : ℕ
  pub failed : ℕ
  pub no_progress : ℕ
  pub advanced : ℕ
  pub quarantined : ℕ
  pub retry_delays : List ℕ

abbrev pub first_pass : {T : Type 0} → Pass T
first_pass = record {
  completed = [];
  attempted = 0;
  failed = 0;
  no_progress = 0;
  advanced = 0;
  quarantined = 0;
  retry_delays = [];
}

abbrev pub bool_to_nat : Bool → ℕ
bool_to_nat true = 1
bool_to_nat false = 0

abbrev pub snoc_some : List ℕ → Option ℕ → List ℕ
snoc_some ds none = ds
snoc_some ds (some d) = ds ++ d ∷ []

module _ {T W : Type 0} (env : Env T W) (sink : Option (QuarantineSink W)) (policy : WorkLoopPolicy)
    (now : ℕ) where
  -- `did_quarantine, delay = record_failure(...)`, with what both call sites add up from it.
  unfoldable pub fail : T → String → Pass T → WorkLoopState → W → Pass T × WorkLoopState × W
  fail item reason p s w =
      let (verdict, s', w') = record_failure sink policy now (env.item_key item) reason s w in
      (
        record p {
          quarantined = p.quarantined + bool_to_nat verdict.0;
          retry_delays = snoc_some p.retry_delays verdict.1;
        },
        s',
        w',
      )

  -- The `except` and `else` of the attempt.
  unfoldable pub conclude : T → Outcome → Pass T → WorkLoopState → W → Pass T × WorkLoopState × W
  unfolding fail
  conclude item returned p s w = (record p { completed = p.completed ++ item ∷ [] }, s, w)
  conclude item (raised class text) p s w =
      fail item (fstring (class ∷ ": " ∷ text ∷ [])) (record p { failed = p.failed + 1 }) s w

  unfoldable pub attempt : T → Pass T → WorkLoopState → W → Pass T × WorkLoopState × W
  unfolding conclude
  attempt item p s w =
      let (outcome, w') = env.process_one item w in
      conclude item outcome (record p { attempted = p.attempted + 1 }) s w'

  -- `for item in ready:`, left at the first item before which a stop is asked for.
  unfoldable pub attempt_all : List T → Pass T → WorkLoopState → W → Pass T × WorkLoopState × W
  unfolding attempt
  attempt_all [] p s w = (p, s, w)
  attempt_all (item ∷ ready) p s w =
      let (stop, w1) = env.should_stop w in
      let (p', s', w') = attempt item p s w1 in
      let rest = attempt_all ready p' s' w' in if stop then (p, s, w1) else rest

  unfoldable pub settle : List String → T → Pass T → WorkLoopState → W → Pass T × WorkLoopState × W
  unfolding fail
  settle remaining item p s w =
      if elem (env.item_key item) remaining
      then fail item "still pending after processing" (record p { no_progress = p.no_progress + 1 })
          s w
      else (record p { advanced = p.advanced + 1 }, record_success (env.item_key item) s, w)

  -- `for item in completed:`
  unfoldable pub settle_all :
      List String → List T → Pass T → WorkLoopState → W → Pass T × WorkLoopState × W
  unfolding settle
  settle_all remaining [] p s w = (p, s, w)
  settle_all remaining (item ∷ items) p s w =
      let (p', s', w') = settle remaining item p s w in settle_all remaining items p' s' w'

  -- The loops of `run_once`, with the second query between them.
  unfoldable pub work_through : List T → WorkLoopState → W → Pass T × WorkLoopState × W
  unfolding attempt_all settle_all
  work_through ready s w =
      let (p1, s1, w1) = attempt_all ready first_pass s w in
      let (left, w2) = env.find_pending w1 in
      settle_all (map env.item_key left) p1.completed p1 s1 w2

  unfoldable pub report : List T → ℕ → Pass T → WorkLoopState → RunOnceResult
  report items skipped p s = record {
    found = length items;
    attempted = p.attempted;
    advanced = p.advanced;
    failed = p.failed;
    no_progress = p.no_progress;
    skipped = skipped;
    quarantined = p.quarantined;
    next_retry_delay = elim (least p.retry_delays) [
      | none ↦ next_ready_delay env.item_key s now items
      | some d ↦ some d
    ];
  }

module _ {T W : Type 0} (env : Env T W) (sink : Option (QuarantineSink W))
    (policy : WorkLoopPolicy) where
  unfoldable pub run_once : WorkLoopState → W → RunOnceResult × WorkLoopState × W
  unfolding work_through report
  run_once s w =
      let (now, w1) = env.clock w in
      let (items, w2) = env.find_pending w1 in
      let (ready, skipped) = eligible_items sink env.item_key s w2 now items in
      let (p, s', w') = work_through env sink policy now ready s w2 in
      (report env sink policy now items skipped p s', s', w')

-- `_sleep_duration`.
unfoldable pub sleep_duration : ℕ → RunOnceResult → ℕ
sleep_duration poll_interval result = elim result.next_retry_delay [
  | none ↦ poll_interval
  | some d ↦ min poll_interval d
]
