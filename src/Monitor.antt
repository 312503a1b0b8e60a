-- ===== src/Monitor.antt =====
-- internal/monitor: how a detected change becomes a finding.
mod Tests
pub mod Samples
pub mod Score
pub mod Patch
pub mod FileClass
pub mod Source
pub mod Targets
pub mod Notes
pub mod Check
pub mod Select
pub mod Run
pub mod Match
pub mod Announce
pub mod Removals
