-- ===== src/Runsv.antt =====
-- runsv/runsv.c: the supervisor of one service and of its optional log service.
pub mod Defs
pub mod Status
pub mod Hooks
pub mod Service
pub mod Control
pub mod Loop
pub mod Round
pub mod Quiet
pub mod Tracked
pub mod Reap
pub mod Reach
pub mod Commands
pub mod Signals
pub mod Life
pub mod Exit
pub mod Faults
mod Tests
