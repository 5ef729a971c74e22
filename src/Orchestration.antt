-- ===== src/Orchestration.antt =====
-- The orchestration of runs.
pub mod ResumePlan
pub mod RunHold
