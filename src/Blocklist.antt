-- ===== src/Blocklist.antt =====
-- src/blocklist.rs: the rules, how a query name is matched against them, and how list lines
-- become rules.
pub mod Rules
pub mod Grows
pub mod Pieces
pub mod Check
pub mod Lines
pub mod Merge
pub mod Unordered
