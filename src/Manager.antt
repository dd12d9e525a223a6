-- ===== src/Manager.antt =====
-- copy-trader-v1.6.63/src/autosell/manager.rs: the automatic sale of positions.
pub mod Persistence
pub mod Store
pub mod Exit
pub mod Monitor
pub mod Signals
pub mod Rounds
