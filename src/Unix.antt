-- ===== src/Unix.antt =====
-- libunix: the buffers between a file descriptor and a program.
pub mod Output
pub mod Stream
pub mod Deliver
pub mod Ends
pub mod Input
pub mod Draws
mod Tests
