-- ===== src/Upstream.antt =====
-- internal/upstream: repository references, and the repository behind a host.
mod Tests
pub mod Ref
pub mod WellKnown
