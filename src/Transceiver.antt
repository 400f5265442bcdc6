-- ===== src/Transceiver.antt =====
-- wiznet-rs/src/transiver.rs: the transceiver, which owns the SPI device and the scratch buffers
-- and moves them through one transfer at a time.
pub mod Block
pub mod Header
pub mod Batch
pub mod Execute
pub mod Async
pub mod Sound
pub mod Total
pub mod Ready
pub mod Flight
pub mod Finish
