-- ===== src/Configuration.antt =====
-- internal/config: the settings of the plugin, their checks, and the daily window of the schedule.
pub mod Clock
pub mod Schedule
pub mod Window
pub mod Wait
pub mod Records
pub mod Paths
pub mod Groups
pub mod Guarding
pub mod Dynamic
pub mod Raw
pub mod Components
pub mod Contained
pub mod Accepted
pub mod Safe
pub mod Bounded
pub mod Loaded
pub mod RoundTrip
pub mod Examples
