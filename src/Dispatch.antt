-- ===== src/Dispatch.antt =====
-- copy-trader-v1.6.63/src/main.rs: the loop over the detected trades.
pub mod Tokens
pub mod Trades
pub mod Due
pub mod Entries
pub mod Allowed
