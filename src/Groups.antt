-- ===== src/Groups.antt =====
-- copy-trader-v1.6.63/src/groups.rs
pub mod Group
pub mod Ids
pub mod Saved
pub mod Manager
pub mod Changes
pub mod Load
pub mod Valid
pub mod Histories
pub mod Start
pub mod Fresh
