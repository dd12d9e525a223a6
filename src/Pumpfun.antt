-- ===== src/Pumpfun.antt =====
-- copy-trader-v1.6.63/src/processor/pumpfun.rs: the bonding curve and the amounts of a buy.
pub mod Curve
pub mod Buy
pub mod Quotes
pub mod Layout
pub mod Targets
