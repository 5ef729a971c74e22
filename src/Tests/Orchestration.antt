-- ===== src/Tests/Orchestration.antt =====
-- A run that is resumed from the portfolio manager's stage, and one that is held.
use trading_agents.Prelude.Dict.{get}
use trading_agents.Orchestration.RunHold.{
  Readiness, ready, failing, unknown, first_active, holds_of, hold_key, hold_unready_run,
}
use trading_agents.Orchestration.RunHold.Held.{answer, hold_unready_run-Held}
use trading_agents.Prelude.{
  ℕ, ◌+◌, ◌≡◌, refl, String, false, none, [], ◌∷◌, any, length, string_eq, pair_eq,
}
use trading_agents.Kernel.Graph.Store.{Node, Store, ok, empty_store, list_nodes}
use trading_agents.Orchestration.ResumePlan.{ResumeArtifact, pm, same_stage, required_artifacts}
use trading_agents.Orchestration.ResumePlan.Parents.{AllPlaced, required_artifacts-AllPlaced}

abbrev child : Node
child = record { label = "RunRequest"; key = "run-request:a"; props = []; schema_version = 1 }

abbrev clone : ResumeArtifact → Node
clone a = record { label = a.label; key = a.chain_key; props = []; schema_version = 1 }

required_artifacts-AllPlaced_example :
    AllPlaced child clone [] (required_artifacts pm)
    × (any (λ a. same_stage a.stage pm) (required_artifacts pm) ≡ false)
required_artifacts-AllPlaced_example = required_artifacts-AllPlaced child clone pm

abbrev one_text : ℕ → String
one_text n = "1"

abbrev unchecked : Readiness
unchecked = record { state = unknown; preflight_key = ""; checked_at = ""; failures = [] }

abbrev broken : Readiness
broken = record {
  state = failing;
  preflight_key = "preflight:1";
  checked_at = "2026-01-05T09:00:00+00:00";
  failures = "unrecoverable:provider:feed:down" ∷ [];
}

abbrev fine : Readiness
fine = record {
  state = ready;
  preflight_key = "preflight:2";
  checked_at = "2026-01-05T09:20:00+00:00";
  failures = [];
}

never_held : first_active (holds_of "r1" empty_store) ≡ none
unfolding holds_of list_nodes first_active
never_held = refl

first_key :
    hold_key one_text "r1" "2026-01-05" "09:00" unchecked (holds_of "r1" empty_store) ≡ "hold:r1"
unfolding hold_key holds_of list_nodes
first_key = refl

key_free : get ("RunHold", "hold:r1") empty_store.nodes ≡ none
unfolding get
key_free = refl

-- A run that is held, asked for again, and let go.
hold_unready_run-Held_example :
    (held free : Store) × (hold_unready_run one_text "r1" "2026-01-05" "09:00" unchecked empty_store
      ≡ (ok (answer one_text "r1" "hold:r1" unchecked), held))
    × (hold_unready_run one_text "r1" "2026-01-05" "09:10" broken held
        ≡ (ok (answer one_text "r1" "hold:r1" broken), held))
    × (hold_unready_run one_text "r1" "2026-01-05" "09:20" fine held ≡ (ok none, free))
    × (first_active (holds_of "r1" free) ≡ none)
    × (length (holds_of "r1" free) ≡ length (holds_of "r1" empty_store) + 1)
hold_unready_run-Held_example =
    hold_unready_run-Held one_text "r1" "2026-01-05" "09:00" "2026-01-05" "09:10" "2026-01-05"
      "09:20" unchecked broken fine empty_store "hold:r1" refl refl refl never_held first_key
      key_free
