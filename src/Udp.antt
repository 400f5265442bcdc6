-- ===== src/Udp.antt =====
-- wiznet-rs/src/udp_socket.rs: the UDP protocol state machine and the datagram handle.
pub mod Frame
pub mod State
pub mod Transfer
pub mod Run
pub mod Handle
pub mod Queue
pub mod Send
pub mod Loops
pub mod Receive
pub mod Edges
pub mod Flows
pub mod Sound
pub mod Fits
