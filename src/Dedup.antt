-- ===== src/Dedup.antt =====
-- copy-trader-v1.6.63/src/main.rs: the claims on a group's buy of a token, and the signatures seen.
pub mod Claims
pub mod Signatures
pub mod Exclusion
pub mod Passes
