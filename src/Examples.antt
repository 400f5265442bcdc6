-- ===== src/Examples.antt =====
-- Concrete inputs: runs of the definitions, and instances of the theorems at them.
pub mod Bus
pub mod Rings
pub mod Frames
pub mod Sockets
pub mod Slots
mod Races
mod Firmware
mod Loops
mod Life
