-- ===== src/Codex.antt =====
-- codex/: the parser of the rollouts of Codex.
pub mod Entry
pub mod Decoder
pub mod Plan
pub mod State
pub mod Serial
pub mod Parser
pub mod Fine
pub mod Orphans
