-- ===== src/Chip.antt =====
-- wiznet-rs/src/lib.rs: `W6100`, the driver of the whole chip.
pub mod State
pub mod Reset
pub mod Service
pub mod Open
pub mod Deliver
pub mod Round
pub mod Relay
pub mod Whole
pub mod Life
