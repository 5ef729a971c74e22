-- ===== src/Kernel/Stop.antt =====
-- kernel/stop.py: the stop signal, and the closing of what a stopped loop held. A closing step is
-- an operation on the world that may raise; an error is known by the name of its class. The signal
-- handler, the sliced sleep and the text of the closing line are not modelled.
pub mod Closing
use trading_agents.Prelude.{
  ℕ, ◌+◌, ◌-◌, String, Bool, true, false, Option, none, some, List, [], ◌∷◌, ◌++◌, nat_beq, length,
  if◌then◌else◌, fstring,
}

pub record StopSignal : Type 0 where
  pub requested : Bool
  pub reason : String
  pub requested_at : ℕ

abbrev pub unrequested : StopSignal
unrequested = record { requested = false; reason = ""; requested_at = 0 }

-- `clock` is the reading that the call would take.
unfoldable pub request : String → ℕ → StopSignal → StopSignal
request reason clock stop =
    if stop.requested
    then stop
    else record stop { reason = reason; requested_at = clock; requested = true }

unfoldable pub seconds_since_request : ℕ → StopSignal → ℕ
seconds_since_request clock stop = if stop.requested then clock - stop.requested_at else 0

-- `max` with 0 is the subtraction of ℕ.
unfoldable pub seconds_left : ℕ → ℕ → StopSignal → ℕ
unfolding seconds_since_request
seconds_left budget clock stop = budget - seconds_since_request clock stop

-- A name, and what the step does: `none`, or the class of the error that it raises.
abbrev pub Step : Type 0 → Type 0
Step W = String × (W → Option String × W)

abbrev pub note_step :
    String → Option String → List String × List String → List String × List String
note_step name none (done, failed) = (done ++ name ∷ [], failed)
note_step name (some error) (done, failed) =
    (done, failed ++ fstring (name ∷ " (" ∷ error ∷ ")" ∷ []) ∷ [])

module _ {W : Type 0} where
  abbrev held : String → Option (W → Option String × W) → List (Step W)
  held name none = []
  held name (some close) = (name, close) ∷ []

  -- A thing held that has no `close` is `none`.
  unfoldable pub closing_steps :
      Option (W → Option String × W)
      → Option (W → Option String × W)
      → Option (W → Option String × W)
      → List (Step W)
  closing_steps faults requests graph =
      held "faults" faults ++ (held "requests" requests ++ held "graph" graph)

  -- The loop of `finish`: the names done, the names failed, and the world after the steps.
  unfoldable pub run_steps :
      List (Step W) → List String × List String → W → (List String × List String) × W
  run_steps [] lists w = (lists, w)
  run_steps ((name, step) ∷ steps) lists w =
      let (error, w') = step w in run_steps steps (note_step name error lists) w'

  -- Whether the stop was clean, what the closing line names, and the world.
  unfoldable pub finish : List (Step W) → List String → W → Bool × (List String × List String) × W
  unfolding run_steps
  finish steps unfinished w =
      let (lists, w') = run_steps steps ([], []) w in
      (nat_beq (length unfinished + length lists.1) 0, lists, w')

  -- `end_loop`: the exit status that it raises, if any.
  unfoldable pub end_loop : List (Step W) → W → Option ℕ × W
  unfolding finish
  end_loop steps w =
      let (clean, lists, w') = finish steps [] w in (if clean then none else some 1, w')
