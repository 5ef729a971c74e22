-- ===== src/Kernel.antt =====
-- kernel/: the plumbing that every agent stands on.
pub mod Stop
pub mod WorkLoop
pub mod Graph
pub mod Errors
pub mod Envelope
pub mod Bus
pub mod ServeLoop
pub mod ClaimCheck
pub mod Faults
pub mod EhloRetry
