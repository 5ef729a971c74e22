-- ===== src/Tests.antt =====
-- The theorems at concrete inputs.
mod WorkLoop
mod Graph
mod Execution
mod Supervisor
mod Orchestration
mod Messages
mod Fills
mod Stages
