-- ===== src/Smells.antt =====
-- src/noze/smells: the union-find that the detectors share.
pub mod UnionFind
pub mod Clusters
pub mod Cohesion
mod Samples
