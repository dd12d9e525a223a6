-- ===== src/Stats.antt =====
-- copy-trader-v1.6.63/src/group_stats.rs: the statistics of the groups.
pub mod Summary
pub mod Store
pub mod Counters
pub mod Reload
pub mod Snapshots
pub mod Histories
pub mod Bumps
pub mod Refines
pub mod Syncs
pub mod Logs
