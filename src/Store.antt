-- ===== src/Store.antt =====
-- session/store.go: the store of all sessions. The locks are not modelled: each call is one step.
pub mod Env
pub mod State
pub mod Actors
pub mod Plan
pub mod Diff
pub mod Find
pub mod AddTurn
pub mod Snapshot
pub mod Fresh
pub mod Sound
