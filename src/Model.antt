-- ===== src/Model.antt =====
-- internal/model/model.go: the domain types that the other parts share.
pub mod Severity
pub mod Repo
pub mod Decision
pub mod Finding
pub mod Samples
mod Tests
