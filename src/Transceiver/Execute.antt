-- ===== src/Transceiver/Execute.antt =====
-- wiznet-rs/src/transiver.rs: `exec_transaction`, the synchronous transaction and the register
-- reads and writes built on it.
use wiznet_rs.Prelude.{
  ℕ, zero, suc, ◌%◌, true, false, List, [], ◌∷◌, ◌++◌, Option, none, some, ◌⊎◌, inl, inr, ◌==◌,
  if◌then◌else◌, length, replicate,
}
use wiznet_rs.Exec.{
  DriverError, scratch_buffer_overrun, spi_error, would_block, other, Result, ok, err, panic,
  out_of_fuel, Exec, pure, map_ok, ◌>>=◌, ◌>>◌,
}
use wiznet_rs.Cell
use wiznet_rs.Cell.{AtomicCell, with_lock_mut}
use wiznet_rs.Spi.{DmaBuffers, poll, SpiDmaDevice}
use wiznet_rs.Bytes.{u16_bytes, u32_bytes, from_be_bytes}
use wiznet_rs.Transceiver.Block.{Address, create_header}
use wiznet_rs.Transceiver.Batch.{Operation, read, write, delay_ns, Batch, batch, scatter}

module _ (spi : SpiDmaDevice) where
  pub data DmaState : Type 0 where
    pending : DmaState
    idle : spi.Device → DmaBuffers → DmaState
    in_flight : spi.Transaction → DmaState

  abbrev pub Transceiver : Type 0
  Transceiver = AtomicCell DmaState

  -- What `exec_transaction` returns, with the operations' slices as it leaves them.
  pub record Executed : Type 0 where
    pub dev : spi.Device
    pub scratch : DmaBuffers
    pub error : Option DriverError
    pub ops : List Operation

  abbrev pub finished :
      spi.Device → DmaBuffers → Option DriverError → List Operation → Result Executed
  finished dev s e ops = ok (record { dev = dev; scratch = s; error = e; ops = ops })

  -- the operations done before those of the later rounds
  abbrev pub before : List Operation → Executed → Executed
  before done x = record x { ops = done ++ x.ops }

  -- A round whose batch is empty: a delay is made, anything else cannot fit.
  abbrev pub lone :
      (spi.Device → DmaBuffers → List Operation → Result Executed)
      → spi.Device
      → DmaBuffers
      → Operation
      → List Operation
      → Result Executed
  lone again dev s (delay_ns ns) ops =
      map_ok (before (delay_ns ns ∷ [])) (again (spi.delay_ns dev ns) s ops)
  lone again dev s op ops = finished dev s (some scratch_buffer_overrun) (op ∷ ops)

  abbrev pub copy_back :
      (spi.Device → DmaBuffers → List Operation → Result Executed)
      → spi.Device
      → DmaBuffers
      → List Operation
      → Option (List Operation)
      → Result Executed
  copy_back again dev s rest none = panic
  copy_back again dev s rest (some done) = map_ok (before done) (again dev s rest)

  -- A round with a batch: one transfer, and the copy-back.
  abbrev pub clock :
      (spi.Device → DmaBuffers → List Operation → Result Executed)
      → Batch
      → spi.Transaction ⊎ (spi.Device × DmaBuffers)
      → Result Executed
  clock again b (inl txn) =
      let (dev, s) = spi.wait txn in copy_back again dev s b.rest (scatter s.rx 0 b.taken)
  clock again b (inr (dev, s)) = finished dev s (some spi_error) (b.taken ++ b.rest)

  abbrev pub round :
      (spi.Device → DmaBuffers → List Operation → Result Executed)
      → spi.Device
      → Operation
      → List Operation
      → Batch
      → List Operation
      → Result Executed
  round again dev op ops b [] = lone again dev b.scratch op ops
  round again dev op ops b (t ∷ ts) =
      clock again b (spi.transceive dev (record b.scratch { len = b.offset }) poll)

  abbrev pub attempt :
      (spi.Device → DmaBuffers → List Operation → Result Executed)
      → spi.Device
      → Operation
      → List Operation
      → Option Batch
      → Result Executed
  attempt again dev op ops none = panic
  attempt again dev op ops (some b) = round again dev op ops b b.taken

  -- The outer loop, on as many rounds as there are operations.
  unfoldable pub exec_transaction : ℕ → spi.Device → DmaBuffers → List Operation → Result Executed
  exec_transaction fuel dev s [] = finished dev s none []
  exec_transaction zero dev s (op ∷ ops) = out_of_fuel
  exec_transaction (suc fuel) dev s (op ∷ ops) =
      let again = λ (d : spi.Device) (t : DmaBuffers) (rest : List Operation).
        exec_transaction fuel d t rest in
      attempt again dev op ops (batch s 0 (op ∷ ops))

  -- the state and result that `transaction` makes of it
  unfoldable pub settle : Result Executed → DmaState → Result (List Operation) × DmaState
  settle (ok x) c = elim x.error [
    | none ↦ (ok x.ops, idle x.dev x.scratch)
    | some e ↦ (err (other e), idle x.dev x.scratch)
  ]
  settle (err e) c = (err e, c)
  settle panic c = (panic, c)
  settle out_of_fuel c = (out_of_fuel, c)

  abbrev pub transact : List Operation → DmaState → Result (List Operation) × DmaState
  transact ops pending = (err would_block, pending)
  transact ops (in_flight txn) = (err would_block, in_flight txn)
  transact ops (idle dev s) = settle (exec_transaction (length ops) dev s ops) pending

  unfoldable pub transaction : List Operation → Exec Transceiver (List Operation)
  unfolding settle
  transaction ops = with_lock_mut (transact ops)

  -- `Transceiver::new`; `none` is its panic.
  unfoldable pub new : spi.Device → DmaBuffers → Option Transceiver
  new dev s = if length s.rx == length s.tx then some (Cell.new (idle dev s)) else none

  -- the slice of the read that follows the header
  abbrev second_slice : List Operation → List ℕ
  second_slice (op ∷ read items ∷ ops) = items
  second_slice _ = []

  -- `Transceiver::read`, which returns what it leaves in `data`
  unfoldable pub read_bytes : Address → List ℕ → Exec Transceiver (List ℕ)
  unfolding transaction
  read_bytes addr buf = do
    done ← transaction (write (create_header addr false) ∷ read buf ∷ [])
    pure (second_slice done)

  -- `Transceiver::write`
  unfoldable pub write_bytes : Address → List ℕ → Exec Transceiver (Unit {0})
  unfolding transaction
  write_bytes addr bytes = do
    transaction (write (create_header addr true) ∷ write bytes ∷ [])
    pure tt

  -- `impl_read_primitive!`, at 1, 2 and 4 bytes
  abbrev read_primitive : ℕ → Address → Exec Transceiver ℕ
  read_primitive size addr = do buf ← read_bytes addr (replicate size 0); pure (from_be_bytes buf 0)

  unfoldable pub read_u8 : Address → Exec Transceiver ℕ
  unfolding read_bytes
  read_u8 = read_primitive 1

  unfoldable pub read_u16 : Address → Exec Transceiver ℕ
  unfolding read_bytes
  read_u16 = read_primitive 2

  unfoldable pub read_u32 : Address → Exec Transceiver ℕ
  unfolding read_bytes
  read_u32 = read_primitive 4

  -- `impl_write_primitive!`
  unfoldable pub write_u8 : Address → ℕ → Exec Transceiver (Unit {0})
  unfolding write_bytes
  write_u8 addr v = write_bytes addr (v % 256 ∷ [])

  unfoldable pub write_u16 : Address → ℕ → Exec Transceiver (Unit {0})
  unfolding write_bytes
  write_u16 addr v = write_bytes addr (u16_bytes v)

  unfoldable pub write_u32 : Address → ℕ → Exec Transceiver (Unit {0})
  unfolding write_bytes
  write_u32 addr v = write_bytes addr (u32_bytes v)
