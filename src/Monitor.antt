-- ===== src/Monitor.antt =====
-- The records of src/modules/monitor and src/modules/stats.rs.
pub mod Csv
pub mod Logs
pub mod Activity
pub mod Stats
mod Examples
