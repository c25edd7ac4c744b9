-- ===== src/Cache.antt =====
-- internal/state: the cache of quota evidence, with the samples from which the burn rate is learned.
pub mod Normalize
pub mod Samples
pub mod Normal
pub mod Histories
pub mod Growth
pub mod Appending
pub mod Learning
pub mod Records
pub mod Marks
pub mod Lookups
pub mod Reads
pub mod Disk
pub mod Steps
pub mod Invariant
pub mod Errors
pub mod Restart
pub mod Due
pub mod Cooldowns
pub mod Examples
