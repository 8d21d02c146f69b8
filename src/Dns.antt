-- ===== src/Dns.antt =====
-- src/dns.rs: DNS messages on the wire.
pub mod Reader
pub mod Name
pub mod Records
pub mod Message
