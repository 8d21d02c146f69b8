-- ===== src/Stats.antt =====
-- The `stats` subcommand of src/stats.rs.
pub mod Calendar
pub mod Entries
pub mod Flags
pub mod Summary
