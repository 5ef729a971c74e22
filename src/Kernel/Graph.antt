-- ===== src/Kernel/Graph.antt =====
-- The append-only graph store: kernel/graph.py, graph_support.py and graph_memory.py.
pub mod Value
pub mod Chars
pub mod Store
pub mod Freeze
pub mod Fresh
pub mod Append
pub mod Idempotent
pub mod Edges
pub mod Walk
