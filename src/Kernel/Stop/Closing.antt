-- ===== src/Kernel/Stop/Closing.antt =====
-- Closing (kernel/stop.py, `finish` and `end_loop`): no step is skipped, and the verdict is exact.
use mathlib.Core.List.{append_assoc, append-nil}
use trading_agents.Prelude.{
  ◌++◌, sym, ap, ◌∙◌, fstring, ℕ, ◌+◌, String, ◌≡◌, refl, ◌↔◌, true, Option, none, some, List, [],
  ◌∷◌, arith, length, length-append, if◌then◌else◌, leb,
}
use trading_agents.Kernel.Stop.{StopSignal, request, Step, note_step, run_steps, finish, end_loop}

abbrev pub raises : Option String → ℕ
raises none = 0
raises (some error) = 1

abbrev pub named_done : String → Option String → List String
named_done name none = name ∷ []
named_done name (some error) = []

abbrev pub named_failed : String → Option String → List String
named_failed name none = []
named_failed name (some error) = fstring (name ∷ " (" ∷ error ∷ ")" ∷ []) ∷ []

-- One step adds its name to the end of one of the two lists.
note_step_lem :
    (name : String) (error : Option String) (lists : List String × List String)
    → ((note_step name error lists).0 ≡ lists.0 ++ named_done name error)
      × ((note_step name error lists).1 ≡ lists.1 ++ named_failed name error)
note_step_lem name none (done, failed) = (refl, sym (append-nil failed))
note_step_lem name (some error) (done, failed) = (sym (append-nil done), refl)

named_failed-length :
    (name : String) (error : Option String) → length (named_failed name error) ≡ raises error
named_failed-length name none = refl
named_failed-length name (some error) = refl

module _ {W : Type 0} where
  -- The world once every step has run, whatever they raised.
  abbrev pub after_steps : List (Step W) → W → W
  after_steps [] w = w
  after_steps ((name, step) ∷ steps) w = after_steps steps (step w).1

  -- How many steps raise when all run in turn.
  abbrev pub failures : List (Step W) → W → ℕ
  failures [] w = 0
  failures ((name, step) ∷ steps) w = raises (step w).0 + failures steps (step w).1

  -- The names of the steps that return, in order.
  abbrev pub done_of : List (Step W) → W → List String
  done_of [] w = []
  done_of ((name, step) ∷ steps) w = named_done name (step w).0 ++ done_of steps (step w).1

  -- The names of the steps that raise, in order, each with the class of its error.
  abbrev pub failed_of : List (Step W) → W → List String
  failed_of [] w = []
  failed_of ((name, step) ∷ steps) w = named_failed name (step w).0 ++ failed_of steps (step w).1

  run_steps_lem :
      (steps : List (Step W)) (lists : List String × List String) (w : W)
      → ((run_steps steps lists w).1 ≡ after_steps steps w)
        × ((run_steps steps lists w).0.0 ≡ lists.0 ++ done_of steps w)
        × ((run_steps steps lists w).0.1 ≡ lists.1 ++ failed_of steps w)
  unfolding run_steps
  run_steps_lem [] lists w = (refl, sym (append-nil lists.0), sym (append-nil lists.1))
  run_steps_lem ((name, step) ∷ steps) lists w =
      let ih = run_steps_lem steps (note_step name (step w).0 lists) (step w).1 in
      let n = note_step_lem name (step w).0 lists in
      (
        ih.0,
        ih.1
            ∙ (ap (λ xs. xs ++ done_of steps (step w).1) n.0
                ∙ append_assoc lists.0 (named_done name (step w).0) (done_of steps (step w).1)),
        ih.2
            ∙ (ap (λ xs. xs ++ failed_of steps (step w).1) n.1
                ∙ append_assoc lists.1 (named_failed name (step w).0) (failed_of steps (step w).1)),
      )

  failed_of-length : (steps : List (Step W)) (w : W) → length (failed_of steps w) ≡ failures steps w
  failed_of-length [] w = refl
  failed_of-length ((name, step) ∷ steps) w =
      let rest = failed_of-length steps (step w).1 in
      length-append (named_failed name (step w).0) (failed_of steps (step w).1)
      ∙ omega (arith, rest, named_failed-length name (step w).0)

  -- A step that raises does not keep the next from running: the world is the one after all steps in
  -- order, the first list names exactly the steps that returned, the second exactly those that raised,
  -- each with the class of its error, both in the order of the steps, and the stop is clean exactly
  -- when nothing was left unfinished and no step raised.
  pub finish_complete :
      (steps : List (Step W)) (unfinished : List String) (w : W)
      → let (clean, lists, w') = finish steps unfinished w in
        (w' ≡ after_steps steps w)
        × (lists.0 ≡ done_of steps w)
        × (lists.1 ≡ failed_of steps w)
        × ((clean ≡ true) ↔ (length unfinished + failures steps w ≡ 0))
  unfolding finish
  finish_complete steps unfinished w =
      let (world, done, failed) = run_steps_lem steps ([], []) w in
      let count = ap (λ xs. length xs) failed ∙ failed_of-length steps w in
      (world, done, failed, ground (arith, count))

  -- The loop ends the process with status 1 exactly when some closing step raised.
  pub end_loop_status :
      (steps : List (Step W)) (w : W)
      → (end_loop steps w).0 ≡ (if leb 1 (failures steps w) then some 1 else none)
  unfolding end_loop finish
  end_loop_status steps w =
      let (world, done, failed) = run_steps_lem steps ([], []) w in
      let count = ap (λ xs. length xs) failed ∙ failed_of-length steps w in ground (arith, count)

-- The first request is kept: a later one changes neither the reason nor the time, so the seconds
-- that are left of a budget are counted from the first.
pub request_once :
    (reason later : String) (clock then_ : ℕ) (stop : StopSignal)
    → request later then_ (request reason clock stop) ≡ request reason clock stop
unfolding request
request_once reason later clock then_ stop = ground arith
