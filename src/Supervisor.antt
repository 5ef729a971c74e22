-- ===== src/Supervisor.antt =====
-- The supervisor agent: its flags and messages in the graph, and its intent gate.
pub mod Flags
pub mod Intent
pub mod Gate
