-- ===== src/Chip/Life.antt =====
-- wiznet-rs/src/lib.rs: the life of a driver, as the calls that its application and its interrupt
-- handlers make one after another.
pub mod Rings
pub mod Handle
pub mod Open
pub mod Steps
