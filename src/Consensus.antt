-- ===== src/Consensus.antt =====
-- copy-trader-v1.6.63/src/consensus/engine.rs: the votes of the tracked wallets on a token, and the
-- trigger that a quorum sends.
pub mod Signals
pub mod Engine
pub mod Wallets
pub mod Tally
pub mod Invariant
pub mod Quorum
pub mod Deciding
pub mod Runs
pub mod Once
pub mod Retract
