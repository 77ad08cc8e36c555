-- ===== src/Tests.antt =====
-- The theorems at concrete inputs.
pub mod Protocol
pub mod Values
pub mod Records
pub mod Runs
pub mod Locks
pub mod Stations
pub mod Handles
pub mod Traces
pub mod Models
pub mod Queries
pub mod Expressions
pub mod Fields
pub mod Sinks
pub mod Averages
pub mod Windows
pub mod Polls
pub mod Copies
pub mod Nears
