-- ===== src/Tcp.antt =====
-- wiznet-rs/src/tcp_socket.rs: the TCP protocol state machine, one non-blocking tick at a time.
pub mod State
pub mod Close
pub mod Open
pub mod Transfer
pub mod Run
pub mod Edges
pub mod Handlers
pub mod Flows
pub mod Sound
pub mod Promise
pub mod Fits
