-- ===== src/Chip/Whole.antt =====
-- wiznet-rs/src/lib.rs: the whole driver, from one call of it to the next.
pub mod Mark
pub mod Invariant
pub mod Reset
pub mod Finish
pub mod Tend
pub mod Complete
