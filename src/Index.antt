-- ===== src/Index.antt =====
-- internal/index: the index of outbound API calls and its merge.
mod Tests
pub mod Calls
pub mod Hosts
pub mod Merge
