-- ===== src/Gate.antt =====
-- The gate, src/mcp: what it remembers between turns, and which findings it still reports.
pub mod Repeats
pub mod State
mod Samples
