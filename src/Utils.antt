-- ===== src/Utils.antt =====
-- utils: the patterns of svlogd.
pub mod Pattern
pub mod Matches
pub mod Further
mod Tests
