-- ===== src/Tests.antt =====
-- Runs of the definitions on concrete inputs.
pub mod Samples
mod Engine
mod Dedups
mod Pumps
mod Grouped
mod Polls
mod Positions
mod Sales
mod Streams
mod Tracked
mod Statistics
mod Dispatched
