-- ===== src/Checkd.antt =====
-- src/checkd.rs: the frames between the client and its check daemon.
pub mod Response
pub mod Framing
