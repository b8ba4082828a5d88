-- ===== src/Text.antt =====
-- The C strings and the line-by-line reading that the whole program is written with.
pub mod Strings
pub mod Lines
pub mod Order
pub mod Search
pub mod Scan
mod Tests
