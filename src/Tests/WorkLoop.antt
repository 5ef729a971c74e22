-- ===== src/Tests/WorkLoop.antt =====
-- The work loop and the closing on concrete items: one that advances, one whose processing raises,
-- and one that returns and is still pending.
use trading_agents.Prelude.{
  ℕ, ◌+◌, ◌≤◌, ◌<◌, ◌≡◌, ◌↔◌, refl, String, true, false, not, Option, none, some, List, [], ◌∷◌,
  ◌==◌, if◌then◌else◌, filter, elem, length, All, arith, leb, string_eq,
}
use trading_agents.Prelude.Dict.{get}
use trading_agents.Kernel.Stop.{Step, finish}
use trading_agents.Kernel.Stop.Closing.{after_steps, failures, done_of, failed_of, finish_complete}
use trading_agents.Kernel.WorkLoop.Policy.{WorkLoopPolicy, default_work_loop_policy, resolve_policy}
use trading_agents.Kernel.WorkLoop.State.{
  RunOnceResult, WorkLoopState, fresh, is_quarantined, is_skipped, eligible_items, record_failure,
  next_ready_delay,
}
use trading_agents.Kernel.WorkLoop.Ledger.{
  IsValid, IsStartable, fail_each, fail_each_quarantines, eligible_items_exact,
}
use trading_agents.Kernel.WorkLoop.Run.{Outcome, returned, raised, Env, run_once}
use trading_agents.Kernel.WorkLoop.Counts.{run_once_accounts, run_once_covers}
use trading_agents.Kernel.WorkLoop.Safety.{run_once-IsValid}
use trading_agents.Kernel.WorkLoop.Delay.{DelayIsExact, next_ready_delay_exact}
use trading_agents.Kernel.WorkLoop.Loop.{Surroundings, work_loop, work_loop_ends}
use trading_agents.Kernel.WorkLoop.Quarantine.{graph_quarantine_sink, marked, quarantine_survives}
use trading_agents.Kernel.Graph.Store.{empty_store}

abbrev policy : WorkLoopPolicy
policy = default_work_loop_policy

abbrev Pending : Type 0
Pending = List String

abbrev process : String → Pending → Outcome × Pending
process item w =
    if item == "bad"
    then (raised "ValueError" "no price", w)
    else if item == "stuck"
    then (returned, w)
    else (returned, filter (λ x. not (x == item)) w)

abbrev env : Env String Pending
env = record {
  find_pending = λ w. (w, w);
  process_one = process;
  should_stop = λ w. (false, w);
  clock = λ w. (100, w);
  item_key = λ item. item;
}

abbrev stopping : Env String Pending
stopping = record env { should_stop = λ w. (true, w) }

abbrev around : Surroundings Pending
around = record { pause = λ d w. w; flush_faults = none; closing = [] }

abbrev items : Pending
items = "good" ∷ "bad" ∷ "stuck" ∷ []

fresh-IsValid : (p : WorkLoopPolicy) → IsValid p fresh
unfolding get
fresh-IsValid p = record { at_key = λ k. tt }

abbrev three : List (ℕ × String)
three = (100, "a") ∷ (200, "b") ∷ (300, "c") ∷ []

fail_each_quarantines_example :
    (elem "bad" (fail_each {W = Pending} none policy "bad" three fresh items).0.quarantined
      ≡ leb 5 3)
    × (3 < 5 → (fail_each {W = Pending} none policy "bad" three fresh items).1 ≡ items)
unfolding get is_quarantined
fail_each_quarantines_example =
    fail_each_quarantines none policy "bad" three fresh items (omega arith) refl refl

run_once_accounts_example :
    let r = (run_once env none policy fresh items).0 in
    (r.attempted ≡ r.advanced + r.failed + r.no_progress)
    × (r.quarantined ≤ r.failed + r.no_progress)
    × (r.attempted + r.skipped ≤ r.found)
run_once_accounts_example = run_once_accounts env none policy fresh items

run_once_covers_example :
    let r = (run_once env none policy fresh items).0 in r.attempted + r.skipped ≡ r.found
run_once_covers_example = run_once_covers env none policy (λ v. refl) fresh items

run_once-IsValid_example :
    IsValid policy (run_once env none policy fresh items).1
    × ((k : String)
        → elem k fresh.quarantined ≡ true
        → elem k (run_once env none policy fresh items).1.quarantined ≡ true)
run_once-IsValid_example = run_once-IsValid env none policy fresh items (fresh-IsValid policy)

work_loop_ends_example :
    (r : List RunOnceResult × WorkLoopState × Option ℕ × Pending) × (work_loop env around none
        policy none 4
        (some 3)
        fresh
        items
      ≡ some r)
    × (length r.0 ≤ 3)
    × IsValid (resolve_policy policy none) r.1
    × (((v : Pending) → (env.should_stop v).0 ≡ false) → length r.0 ≡ 3)
work_loop_ends_example =
    work_loop_ends env around none policy none 4 3 fresh items (omega arith)
      (fresh-IsValid (resolve_policy policy none))

abbrev impatient : WorkLoopPolicy
impatient = record policy { max_attempts_before_quarantine = 1 }

quarantine_survives_example :
    let sink = some (graph_quarantine_sink "execution" "2026-01-01") in
    let (verdict, s', g') = record_failure sink impatient 100 "bad" "no price" fresh empty_store in
    (verdict.0 ≡ true)
    × (eligible_items sink {T = String} (λ k. k) fresh g' 500 ("bad" ∷ []) ≡ ([], 1))
unfolding get is_quarantined marked
quarantine_survives_example =
    quarantine_survives "execution" "2026-01-01" impatient 100 500 "bad" "no price" fresh
      empty_store refl (omega arith)

eligible_items_exact_example :
    let (ready, skipped) =
      eligible_items {W = Pending} none {T = String} (λ k. k) fresh items 100 items in
    All (IsStartable {W = Pending} none (λ k. k) fresh items 100) ready
    × (ready ≡ filter (λ item. not (is_skipped {W = Pending} none fresh items 100 item)) items)
    × (length ready + skipped ≡ length items)
eligible_items_exact_example = eligible_items_exact none (λ k. k) fresh items 100 items

next_ready_delay_exact_example :
    DelayIsExact {T = String} (λ k. k) fresh 100 items (next_ready_delay (λ k. k) fresh 100 items)
next_ready_delay_exact_example = next_ready_delay_exact (λ k. k) fresh 100 items

abbrev steps : List (Step ℕ)
steps = ("faults", λ n. (some "OSError", n + 1)) ∷ ("graph", λ n. (none, n + 10)) ∷ []

finish_complete_example :
    let (clean, lists, w') = finish steps [] 0 in
    (w' ≡ after_steps steps 0)
    × (lists.0 ≡ done_of steps 0)
    × (lists.1 ≡ failed_of steps 0)
    × ((clean ≡ true) ↔ (length {A = String} [] + failures steps 0 ≡ 0))
finish_complete_example = finish_complete steps [] 0
