-- ===== src/Restartd.antt =====
-- svc.restartd: the daemon that restarts a service by the events of its processes.
pub mod Defs
pub mod Pids
pub mod Start
pub mod PidFile
pub mod Machine
pub mod Stuck
pub mod Clean
pub mod OneRun
pub mod Oneshot
pub mod Cycle
pub mod Config
pub mod Settings
mod Tests
