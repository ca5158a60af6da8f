-- ===== src/Chpst.antt =====
-- utils/chpst.c and libunix/pathexec_env.c: the program that changes the process state and runs another.
pub mod Env
pub mod Counts
pub mod Variable
pub mod Edir
pub mod Values
pub mod Limit
pub mod Main
pub mod Runs
pub mod Success
mod Tests
