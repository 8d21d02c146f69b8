-- ===== src/Cache.antt =====
-- The cache of downloaded lists in src/blocklist.rs.
pub mod Filename
pub mod Store
pub mod Fetch
