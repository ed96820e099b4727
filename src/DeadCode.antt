-- ===== src/DeadCode.antt =====
-- src/noze/dead_code: which modules production reaches, and how sure a finding is.
pub mod Reach
pub mod Demand
pub mod Grade
pub mod Classes
mod Samples
