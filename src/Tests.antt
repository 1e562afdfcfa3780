-- ===== src/Tests.antt =====
-- Concrete turns, sessions and stores, and the theorems applied to them.
mod Data
mod Buffers
mod Sessions
mod Store
mod Intake
mod Cache
mod Watching
mod Growing
mod Restarting
mod Parsing
mod Snapshots
mod Plans
mod Uses
mod Orphans
