-- ===== src/Byte.antt =====
-- libbyte: searches, comparisons and copies of bytes, and decimal numbers.
-- A byte is a number below 256. Where a function only reads, a pointer is the list of the bytes
-- from it to the end of its object, and `none` is a read past that end.
pub mod Search
pub mod Compare
pub mod Copy
pub mod Decimal
pub mod Padded
mod Tests
