-- ===== src/Text.antt =====
-- The operations on `str` and `String` that the program uses, on UTF-8 bytes.
pub mod Split
pub mod Utf8
pub mod Trim
pub mod Search
