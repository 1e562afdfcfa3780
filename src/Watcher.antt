-- ===== src/Watcher.antt =====
-- watcher/watcher.go: the watcher that feeds the lines of the transcripts to the store, by its
-- parts: the loop over the lines, the tests on paths, the reading of files, the notices.
pub mod Lines
pub mod Roots
pub mod State
pub mod Disk
pub mod Reader
pub mod Subagents
pub mod Batch
pub mod Sound
pub mod Dirty
pub mod Growth
pub mod Parsers
pub mod Restart
