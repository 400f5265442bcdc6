-- ===== src/Loopback.antt =====
-- examples/spi_dma_loopback.rs: the self-test of the interrupt-driven DMA, with MISO wired to MOSI.
-- The HAL is not part of the repository: its types and operations are parameters.
pub mod Check
pub mod Run
pub mod Verdict
pub mod Pattern
pub mod Wired
