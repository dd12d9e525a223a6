-- ===== src/Stream.antt =====
-- copy-trader-v1.6.63/src/grpc/subscriber.rs: the stream of the target wallets' transactions.
pub mod Types
pub mod Wallets
pub mod Direction
pub mod Lamports
pub mod Transfers
pub mod Instructions
pub mod Cpi
pub mod Parse
pub mod Found
pub mod Describes
pub mod Sound
pub mod Errors
pub mod Amounts
pub mod Order
pub mod Subscribe
pub mod Sorted
pub mod Canonical
pub mod Runs
