-- ===== src/Kernel/WorkLoop.antt =====
-- The graph-pull work loop: kernel/work_loop.py, work_loop_policy.py, work_loop_quarantine.py and
-- work_loop_state.py. Times are whole ticks of the clock, and the multiplier is a whole number.
pub mod Policy
pub mod State
pub mod Run
pub mod Ledger
pub mod Counts
pub mod Safety
pub mod Delay
pub mod Loop
pub mod Quarantine
