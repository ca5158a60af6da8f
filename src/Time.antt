-- ===== src/Time.antt =====
-- libtime: TAI64 seconds, TAI64NA time stamps, their packed bytes and their printed labels.
pub mod Tai
pub mod Taia
pub mod Label
mod Tests
