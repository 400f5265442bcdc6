-- ===== src/Registers.antt =====
-- wiznet-rs/src/socket_common.rs: the registers of a hardware socket.
pub mod Codes
pub mod Access
pub mod Laws
pub mod Ready
