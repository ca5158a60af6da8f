-- ===== src/Sv.antt =====
-- sv/sv.c: the program that asks a supervisor for its status, sends it commands and waits.
pub mod Defs
pub mod Get
pub mod Check
pub mod Action
pub mod Agrees
pub mod Print
pub mod Loop
pub mod Ends
pub mod Counts
pub mod Tells
pub mod Succeeds
pub mod Slash
pub mod Lsb
mod Tests
