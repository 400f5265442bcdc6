-- ===== src/Lib.antt =====
-- A model of the W6100 Ethernet driver in wiznet-rs/src, and its correctness.
--
-- The driver talks to the chip over SPI with DMA. A transceiver owns the SPI device and two scratch
-- buffers and moves them through one transfer at a time; register functions read and write the chip
-- through it; each of eight sockets is a slot with a TCP or a UDP state machine and two byte rings,
-- one per direction, that it shares with the application's handle; the device driver gives each slot
-- a tick, and completes a bulk transfer from the DMA interrupt.
--
-- Which file models which part, with the functions of the same names:
--   Cell               wiznet-rs/src/atomic_cell.rs: the try-lock, `busy` while it is held
--   Exec               wiznet-rs/src/error.rs, and actions from a state to a result and a state
--   Spi                wiznet-rs/src/spi_dma.rs: the transport, a parameter of everything above it
--   Ring               wiznet-rs/src/spsc_ring.rs: a ring as a record of memory and counters
--   Transceiver        wiznet-rs/src/transiver.rs: Block (headers), Batch and Execute (synchronous
--                      transactions), Async (bulk transfers and `abort`)
--   Registers          wiznet-rs/src/socket_common.rs, and the mode codes of socket.rs
--   Tick               wiznet-rs/src/socket.rs: what the two protocols share
--   Tcp                wiznet-rs/src/tcp_socket.rs: State, Open, Transfer, Close, Run
--   Udp                wiznet-rs/src/udp_socket.rs: Frame, State, Transfer, Run, Handle
--   Backend            wiznet-rs/src/socket.rs: the slot
--   Chip               wiznet-rs/src/lib.rs: State, Reset, Service; Open has the handles' calls
--   Echo               examples/echo/src: HalSpi (hal_spi.rs, the firmware's transport), and of
--                      main.rs Tcp and Udp (the echo loops), Main (a wake) and App (the main thread
--                      between its sleeps, and the interrupt handlers)
--   Loopback           examples/spi_dma_loopback.rs: Check (the pattern and the check of it), Run
-- Prelude, Bytes, Safe and Yields hold what these share; Chip/Whole and Chip/Life follow a driver from
-- one call to the next, on all of its slots. Examples has concrete runs and instances.
--
-- How it corresponds. A function on `&self` or `&mut self` is a function from a state to its
-- result and the state that it leaves; what was written before an error stays written. A `match`
-- on a value just read is a function of its own (`opening_on` is the `match` of `handle_opening`).
-- A critical section of a cell runs to its end; another context inside it would find the cell
-- busy, which is a state that every operation is defined on. `panic` is an explicit panic, or a
-- slice of the scratch buffers out of range, of the one that is sent as of the one that is
-- received; elsewhere a slice's bounds are minima with its length or fixed sizes, and it is cut by
-- total functions. Bytes are natural numbers; `usize` has 32 bits, as on the target, and every
-- narrowing and wrap-around of the code is written out. The transport is arbitrary: it may refuse
-- or complete any transfer and put any bytes in the receive buffer; that it gives back buffers of
-- the size that it was handed is the hypothesis `KeepsBuffers`.
--
-- Ring/Concurrent has the ring's operations a second time, cut at their accesses to shared memory, as
-- the steps of two contexts that take turns in any order. The HAL of the two examples is a parameter
-- too, with what it documents as hypotheses (`Documented`, `Wired`).
--
-- Chip/Life/Steps has the calls of a whole driver as the steps of a relation, each run to its end: the
-- interrupts come between the calls of the main thread. A slot is named there by what stands before
-- and behind it, and a handle may be used on any slot, which the types of the code rule out.
--
-- Bounds and fuel. `exec_transaction` has a round for each operation left, since a round takes one
-- at least. The loop of `flush_sync` has a round for each byte to send, since a round that goes on
-- stages one at least. `recv_from` has a round for each byte of its two loops. The wait for the
-- chip counts its iterations as the code does. The echo of the stream has a round for each free
-- byte of the tx ring, and that of the datagrams one for each frame, and one more. A valid ring
-- has a capacity that divides 2^32: an index is a counter modulo the capacity, and only then does
-- it go on evenly where the counter wraps.
--
-- Not modelled: memory orderings weaker than the order of the steps, and single bytes of a copy, which
-- is one step; registers that no function uses; Debug output; the set-up of the boards in the two
-- examples, which is calls of the HAL; the test harness and the host tools, which are not part of the
-- driver.
pub mod Prelude
pub mod Exec
pub mod Safe
pub mod Yields
pub mod Cell
pub mod Spi
pub mod Bytes
pub mod Ring
pub mod Transceiver
pub mod Registers
pub mod Tick
pub mod Tcp
pub mod Udp
pub mod Backend
pub mod Chip
pub mod Echo
pub mod Loopback
pub mod Examples
