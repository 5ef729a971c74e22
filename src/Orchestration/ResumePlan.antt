-- ===== src/Orchestration/ResumePlan.antt =====
-- orchestration/resume_plan.py, with the stages of contracts/resume.py: which artifacts a child run
-- links before the stage that it resumes from, and under which parent.
pub mod Parents
use trading_agents.Prelude.{
  ℕ, zero, suc, ◌≡◌, refl, String, Bool, true, false, not, ◌&&◌, Option, none, some, List, [], ◌∷◌,
  ◌==◌, if◌then◌else◌, map, elem, any, fstring, string_eq,
}
use trading_agents.Prelude.Dict.{Dict, get, put, is_some}
use trading_agents.Kernel.Graph.Store.{Node, Error, value_error, key_error, Result, ok, raised}

pub data ResumeStage : Type 0 where
  position_sync provider scanner analyst pm execution monitor reporter : ResumeStage

abbrev pub resume_stages : List ResumeStage
resume_stages =
    position_sync ∷ provider ∷ scanner ∷ analyst ∷ pm ∷ execution ∷ monitor ∷ reporter ∷ []

abbrev pub stage_text : ResumeStage → String
stage_text position_sync = "position_sync"
stage_text provider = "provider"
stage_text scanner = "scanner"
stage_text analyst = "analyst"
stage_text pm = "pm"
stage_text execution = "execution"
stage_text monitor = "monitor"
stage_text reporter = "reporter"

abbrev pub same_stage : ResumeStage → ResumeStage → Bool
same_stage stage other = stage_text stage == stage_text other

pub record ResumeArtifact : Type 0 where
  pub stage : ResumeStage
  pub chain_key : String
  pub label : String
  pub edge : String
  pub parent : String

abbrev artifact : ResumeStage → String → String → String → String → ResumeArtifact
artifact stage chain_key label edge parent = record {
  stage = stage;
  chain_key = chain_key;
  label = label;
  edge = edge;
  parent = parent;
}

abbrev pub artifacts : List ResumeArtifact
artifacts =
    artifact position_sync "PositionSync" "MonitorRun" "POSITION_SYNCED_BY" "RunRequest"
    ∷ artifact provider "MarketData" "MarketData" "INGESTED_BY" "RunRequest"
    ∷ artifact scanner "ScanRun" "ScanRun" "SCANNED_BY" "MarketData"
    ∷ artifact analyst "AnalystRun" "AnalystRun" "ANALYZED_BY" "ScanRun"
    ∷ artifact pm "PMRun" "PMRun" "EVALUATED_BY" "AnalystRun"
    ∷ artifact execution "ExecutionRun" "ExecutionRun" "EXECUTED_BY" "PMRun"
    ∷ artifact monitor "MonitorRun" "MonitorRun" "MONITORED_BY" "ExecutionRun"
    ∷ artifact reporter "Snapshot" "Snapshot" "REPORTED_BY" "MonitorRun"
    ∷ []

-- `RESUME_STAGES.index(stage)`, of a stage that is there.
unfoldable pub index : ResumeStage → List ResumeStage → ℕ
index stage [] = zero
index stage (other ∷ stages) = if same_stage other stage then zero else suc (index stage stages)

abbrev pub take : {A : Type 0} → ℕ → List A → List A
take zero xs = []
take (suc n) [] = []
take (suc n) (x ∷ xs) = x ∷ take n xs

unfoldable pub required_artifacts : ResumeStage → List ResumeArtifact
unfolding index
required_artifacts stage = take (index stage resume_stages) artifacts

unfoldable pub artifact_parent : ResumeArtifact → Node → Dict String Node → Result Node
artifact_parent artifact child clones =
    if artifact.parent == "RunRequest" then ok child else elim (get artifact.parent clones) [
      | none ↦ raised (key_error (fstring ("'" ∷ artifact.parent ∷ "'" ∷ [])))
      | some clone ↦ ok clone
    ]

abbrev pub stages_match : List ResumeStage → List ResumeStage → Bool
stages_match [] [] = true
stages_match (stage ∷ stages) (other ∷ others) =
    same_stage stage other && stages_match stages others
stages_match _ _ = false

unfoldable pub validate_alignment : List ResumeStage → List ResumeArtifact → Result (Unit {0})
validate_alignment stages artifacts =
    if stages_match (map (λ a. a.stage) artifacts) stages
    then ok tt
    else raised (value_error "resume artifacts are not aligned to RESUME_STAGES")
