-- ===== src/Runsvdir.antt =====
-- runsvdir/runsvdir.c: the program that keeps a supervisor for each service directory.
pub mod Defs
pub mod Scan
pub mod Table
pub mod Prune
pub mod Rescan
pub mod Loop
pub mod Rounds
pub mod Hangup
mod Tests
