-- ===== src/Forwarder.antt =====
-- src/upstream.rs: what the forwarder answers to a client.
pub mod Response
pub mod Scene
pub mod Stream
pub mod Run
pub mod Handler
pub mod Bypass
