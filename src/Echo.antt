-- ===== src/Echo.antt =====
-- examples/echo/src/main.rs and examples/echo/src/hal_spi.rs: an echo server on the driver.
-- `Tcp` and `Udp` are the two echo loops, which the main thread runs between the interrupts.
pub mod HalSpi
pub mod HalLaws
pub mod Tcp
pub mod TcpStep
pub mod TcpLoop
pub mod Udp
pub mod UdpStep
pub mod UdpBounce
pub mod UdpLoop
pub mod UdpEmpty
pub mod Main
pub mod App
pub mod MainLaws
