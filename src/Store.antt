-- ===== src/Store.antt =====
-- internal/store/store.go: the persisted state and its operations.
mod Tests
pub mod State
pub mod Findings
pub mod Links
pub mod Runs
