-- ===== src/Priority.antt =====
-- internal/priority: the planner of host priorities from quota evidence.
pub mod Floats
pub mod Quota
pub mod Items
pub mod Order
pub mod Plan
pub mod Sorting
pub mod Steady
pub mod Fresh
pub mod Kept
pub mod Examples
pub mod Members
pub mod Ranks
pub mod Written
pub mod Placed
pub mod Fitness
pub mod Judged
pub mod Ranking
