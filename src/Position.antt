-- ===== src/Position.antt =====
-- copy-trader-v1.6.63/src/autosell/position.rs: the states of a position.
pub mod State
pub mod Prices
pub mod Transitions
pub mod Highs
