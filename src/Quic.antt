-- ===== src/Quic.antt =====
-- crates/quic: connections, their listener and the validation of addresses.
pub mod Quiche
pub mod Conn
pub mod Validator
pub mod Server
pub mod Client
