-- ===== src/Execution.antt =====
-- The execution agent: the paper broker, the attempts of its fills and the deliberation gate.
pub mod Money
pub mod PaperBroker
pub mod Deliberation
pub mod Lifecycle
pub mod FillAttempts
pub mod FillStore
pub mod Submission
pub mod Reconcile
pub mod StageFlow
