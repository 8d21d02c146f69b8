-- ===== src/Program.antt =====
-- The program around the forwarder: src/main.rs and src/config.rs.
pub mod Config
pub mod Build
pub mod Changes
pub mod Service
pub mod Serving
