-- ===== src/Runtime.antt =====
-- internal/runtime: what stands between the host and the quota guard.
pub mod Records
pub mod Identities
pub mod Groups
pub mod Quota
pub mod Handlers
pub mod Gate
pub mod Agreement
pub mod Selected
pub mod Examples
