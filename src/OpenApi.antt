-- ===== src/OpenApi.antt =====
-- internal/monitor/analyze/openapi: the structural diff of two specifications.
mod Tests
pub mod Doc
pub mod Template
pub mod Operation
pub mod Diff
pub mod Renames
