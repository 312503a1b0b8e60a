-- ===== src/Linker.antt =====
-- internal/linker, and the links of internal/config: which hosts still need an upstream.
mod Tests
pub mod Config
pub mod Requests
pub mod Linking
pub mod Auto
pub mod Sync
pub mod Account
pub mod Prompt
