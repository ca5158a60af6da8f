-- ===== src/Pid1.antt =====
-- pid1/runit.c and telinit/telinit.c: process number 1, and the program that tells it to stop.
pub mod Defs
pub mod Stage
pub mod Signals
pub mod Machine
pub mod Path
pub mod Moves
pub mod Ends
pub mod Waits
pub mod Stop
pub mod Telinit
mod Tests
