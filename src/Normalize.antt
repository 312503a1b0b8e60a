-- ===== src/Normalize.antt =====
-- internal/normalize: a resolved list of segments becomes a canonical URL.
mod Tests
pub mod Squeeze
pub mod Path
pub mod Token
pub mod Ids
pub mod Segments
pub mod Build
pub mod Host
pub mod Port
pub mod Canonical
