-- ===== src/Svlogd.antt =====
-- utils/svlogd.c: the logger, which reads lines and keeps them in log directories.
pub mod Defs
pub mod Files
pub mod Oldest
pub mod Write
pub mod Equations
pub mod Tidy
pub mod Pwrite
pub mod Kept
pub mod Match
pub mod Select
pub mod Input
pub mod Line
pub mod Rendered
pub mod Term
pub mod Config
pub mod Configured
pub mod Open
pub mod Opened
mod Tests
