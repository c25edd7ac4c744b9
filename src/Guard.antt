-- ===== src/Guard.antt =====
-- internal/guard: the quota circuit breaker.
pub mod Types
pub mod Records
pub mod Classify
pub mod Engine
pub mod Entries
pub mod Roster
pub mod Reset
pub mod Breaker
pub mod Evidence
pub mod Observe
pub mod Status
pub mod Candidates
pub mod Pick
pub mod Files
pub mod Document
pub mod Store
pub mod Invariant
pub mod Selection
pub mod Cooldown
pub mod Edits
pub mod Keys
pub mod Steps
pub mod Fence
pub mod Examples
