-- ===== src/Accounts.antt =====
-- copy-trader-v1.6.63/src/grpc/account_subscriber.rs: the stream of curve and token accounts.
pub mod Subscriber
pub mod Stream
pub mod Untracked
pub mod Runs
pub mod Delivery
