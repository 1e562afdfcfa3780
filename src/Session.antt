-- ===== src/Session.antt =====
-- The package `session`: transcripts folded into sessions.
pub mod Usage
pub mod Event
pub mod EventBuffer
pub mod Meta
pub mod Turn
pub mod TurnBuffer
pub mod State
pub mod Skills
pub mod Touches
pub mod Requests
pub mod Turns
pub mod AddTurn
pub mod Subagents
pub mod Queries
pub mod Sound
pub mod Snapshot
pub mod SnapshotCache
