-- ===== src/Claude.antt =====
-- claude/: the parser of Claude's transcripts.
pub mod Entry
pub mod Decoder
pub mod Content
pub mod Events
pub mod State
pub mod Serial
pub mod Parser
pub mod Fine
pub mod Uses
