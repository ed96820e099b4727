-- ===== src/Brainz.antt =====
-- The metrics component, src/brainz: fingerprints, aging between scans, staleness, totals.
pub mod Fingerprint
pub mod Identity
pub mod GateMemory
pub mod Aging
pub mod Staleness
pub mod Verdict
pub mod Triage
pub mod Suppression
pub mod Events
mod Samples
