-- ===== src/Orchestration/ResumePlan/Parents.antt =====
-- Linking the required artifacts in order (orchestration/resume_plan.py; the loop of
-- orchestration/resume.py that fills `clones`).
use trading_agents.Prelude.{ℕ, zero, suc, ◌≡◌, refl, String, false, List, [], ◌∷◌, any, string_eq}
use trading_agents.Prelude.Dict.{Dict, get, put}
use trading_agents.Kernel.Graph.Store.{Node, ok}
use trading_agents.Orchestration.ResumePlan.{
  ResumeStage, position_sync, provider, scanner, analyst, pm, execution, monitor, reporter,
  resume_stages, same_stage, ResumeArtifact, artifacts, index, take, required_artifacts,
  artifact_parent,
}

module _ (child : Node) (clone : ResumeArtifact → Node) where
  -- Each artifact finds its parent among the clones of those before it.
  abbrev pub AllPlaced : Dict String Node → List ResumeArtifact → Type 0
  AllPlaced clones [] = Unit
  AllPlaced clones (a ∷ rest) =
      ((parent : Node) × (artifact_parent a child clones ≡ ok parent))
      × AllPlaced (put a.chain_key (clone a) clones) rest

  take-AllPlaced :
      (n : ℕ) (clones : Dict String Node) (xs : List ResumeArtifact)
      → AllPlaced clones xs
      → AllPlaced clones (take n xs)
  take-AllPlaced zero clones xs h = tt
  take-AllPlaced (suc n) clones [] h = tt
  take-AllPlaced (suc n) clones (x ∷ xs) h =
      (h.0, take-AllPlaced n (put x.chain_key (clone x) clones) xs h.1)

  artifacts-AllPlaced : AllPlaced [] artifacts
  unfolding artifact_parent get put
  artifacts-AllPlaced = (
    (_, refl),
    ((_, refl), ((_, refl), ((_, refl), ((_, refl), ((_, refl), ((_, refl), ((_, refl), tt))))))),
  )

  -- From whatever stage a run is resumed, the artifacts that it requires can be linked in their
  -- order: each finds its parent, and no lookup among the clones fails. None of them is of the stage
  -- itself.
  pub required_artifacts-AllPlaced :
      (stage : ResumeStage)
      → AllPlaced [] (required_artifacts stage)
        × (any (λ a. same_stage a.stage stage) (required_artifacts stage) ≡ false)
  unfolding required_artifacts index
  required_artifacts-AllPlaced stage = (
    take-AllPlaced (index stage resume_stages) [] artifacts artifacts-AllPlaced,
    elim stage as (λ k. any (λ a. same_stage a.stage k) (required_artifacts k) ≡ false) [
      | position_sync ↦ refl
      | provider ↦ refl
      | scanner ↦ refl
      | analyst ↦ refl
      | pm ↦ refl
      | execution ↦ refl
      | monitor ↦ refl
      | reporter ↦ refl
    ],
  )
