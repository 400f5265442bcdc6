-- ===== src/Ring/Concurrent.antt =====
-- wiznet-rs/src/spsc_ring.rs: one producer and one consumer on a ring, interleaved. Between the
-- loads of an operation and its `Release` store the other context may do anything.
-- `Steps` has the steps, `Moves` what each does to the ring, `Keeps` the invariant, `Fifo` what holds in every reachable state.
pub mod Steps
pub mod Moves
pub mod Keeps
pub mod Fifo
