-- ===== src/Sell.antt =====
-- copy-trader-v1.6.63/src/tx/sell_executor.rs: the sales.
pub mod Attempts
pub mod Confirm
pub mod Waits
pub mod Executor
pub mod Outcomes
pub mod States
pub mod Handler
pub mod Release
