-- ===== src/Evidence.antt =====
-- internal/evidence: which probe results and stored observations count as quota evidence.
pub mod Records
pub mod Checks
pub mod Classify
pub mod Authority
pub mod Planning
pub mod Exclusive
pub mod Examples
