-- ===== src/Transceiver/Async.antt =====
-- wiznet-rs/src/transiver.rs: the asynchronous transfers, from the start of the DMA to the
-- completion interrupt, and `abort`.
use wiznet_rs.Prelude.{
  ℕ, ◌+◌, true, false, List, Option, none, some, ◌⊎◌, inl, inr, ltb, if◌then◌else◌, length,
}
use wiznet_rs.Exec.{
  scratch_buffer_overrun, spi_error, would_block, other, Result, ok, err, panic, Exec, ◌>>=◌,
}
use wiznet_rs.Cell.{with_lock_mut, with_lock_mut_env}
use wiznet_rs.Spi.{DmaBuffers, interrupt, SpiDmaDevice}
use wiznet_rs.Ring.{copy_to}
use wiznet_rs.Transceiver.Block.{header_len, Address, create_header}
use wiznet_rs.Transceiver.Batch.{copy_slice, slice}
use wiznet_rs.Transceiver.Execute.{DmaState, pending, idle, in_flight, Transceiver}

module _ (spi : SpiDmaDevice) where
  -- `mem::replace(cell, Pending)`, undone unless the cell was idle
  unfoldable pub take_idle : Exec (DmaState spi) (spi.Device × DmaBuffers)
  take_idle (idle dev s) = (ok (dev, s), pending)
  take_idle (in_flight txn) = (err would_block, in_flight txn)
  take_idle pending = (err would_block, pending)

  -- the `match dev.transceive(scratch, Completion::Interrupt)`
  abbrev pub launched :
      spi.Transaction ⊎ (spi.Device × DmaBuffers) → Result (Unit {0}) × DmaState spi
  launched (inl txn) = (ok tt, in_flight txn)
  launched (inr (dev, s)) = (err (other spi_error), idle dev s)

  -- The read once its header is staged; `none` is a slice out of range.
  abbrev pub send_read :
      ℕ → spi.Device → DmaBuffers → Option (List ℕ) → Result (Unit {0}) × DmaState spi
  send_read len dev s none = (panic, pending)
  send_read len dev s (some tx) =
      launched (spi.transceive dev (record s { tx = tx; len = header_len + len }) interrupt)

  -- `start_read` once the device is taken
  abbrev pub launch_read : Address → ℕ → spi.Device → DmaBuffers → Result (Unit {0}) × DmaState spi
  launch_read addr len dev s =
      if ltb (length s.tx) (header_len + len)
      then (err (other scratch_buffer_overrun), idle dev s)
      else send_read len dev s (copy_slice s.tx 0 (create_header addr false))

  unfoldable pub start_read : Address → ℕ → Exec (Transceiver spi) (Unit {0})
  unfolding take_idle
  start_read addr len = with_lock_mut (do (dev, s) ← take_idle; λ _. launch_read addr len dev s)

  -- `mem::replace(cell, Pending)`, undone unless a transfer was in flight
  unfoldable pub take_in_flight : Exec (DmaState spi) spi.Transaction
  take_in_flight (in_flight txn) = (ok txn, pending)
  take_in_flight (idle dev s) = (err would_block, idle dev s)
  take_in_flight pending = (err would_block, pending)

  module _ {E : Type 0} where
    -- `consume(&rx[HEADER..HEADER + len])` and the return to `Idle`
    abbrev deliver :
        (List ℕ → E → E)
        → spi.Device
        → DmaBuffers
        → E
        → Option (List ℕ)
        → Result (Unit {0}) × (DmaState spi × E)
    deliver consume dev s e none = (panic, (pending, e))
    deliver consume dev s e (some payload) = (ok tt, (idle dev s, consume payload e))

    abbrev pub collect :
        ℕ
        → (List ℕ → E → E)
        → E
        → Result spi.Transaction × DmaState spi
        → Result (Unit {0}) × (DmaState spi × E)
    collect len consume e (ok txn, c) =
        let (dev, s) = spi.wait txn in deliver consume dev s e (slice s.rx header_len len)
    collect len consume e (err x, c) = (err x, (c, e))
    collect len consume e (_, c) = (panic, (c, e))

    -- `E` is what `consume` has captured.
    unfoldable pub finish_read : ℕ → (List ℕ → E → E) → Exec (Transceiver spi × E) (Unit {0})
    unfolding take_in_flight
    finish_read len consume = with_lock_mut_env (λ (c, e). collect len consume e (take_in_flight c))

    abbrev with_env : E → Result (Unit {0}) × DmaState spi → Result (Unit {0}) × (DmaState spi × E)
    with_env e (r, c) = (r, (c, e))

    -- The payload window `&mut tx[HEADER..HEADER + len]` handed to `fill`, which gives it back with
    -- what it wrote; `none` is a slice out of range.
    abbrev pub send_write :
        ℕ
        → (List ℕ → E → List ℕ × E)
        → spi.Device
        → DmaBuffers
        → E
        → List ℕ
        → Option (List ℕ)
        → Result (Unit {0}) × (DmaState spi × E)
    send_write len fill dev s e headed none = (panic, (pending, e))
    send_write len fill dev s e headed (some window) =
        let (payload, e') = fill window e in
        let sent : DmaBuffers = record s {
          tx = copy_to headed header_len payload;
          len = header_len + len;
        } in
        with_env e' (launched (spi.transceive dev sent interrupt))

    -- The write once its header is staged.
    abbrev pub fill_write :
        ℕ
        → (List ℕ → E → List ℕ × E)
        → spi.Device
        → DmaBuffers
        → E
        → Option (List ℕ)
        → Result (Unit {0}) × (DmaState spi × E)
    fill_write len fill dev s e none = (panic, (pending, e))
    fill_write len fill dev s e (some headed) =
        send_write len fill dev s e headed (slice headed header_len len)

    -- `start_write` once the device is taken
    abbrev pub launch_write :
        Address
        → ℕ
        → (List ℕ → E → List ℕ × E)
        → spi.Device
        → DmaBuffers
        → E
        → Result (Unit {0}) × (DmaState spi × E)
    launch_write addr len fill dev s e =
        if ltb (length s.tx) (header_len + len)
        then (err (other scratch_buffer_overrun), (idle dev s, e))
        else fill_write len fill dev s e (copy_slice s.tx 0 (create_header addr true))

    abbrev pub stage_write :
        Address
        → ℕ
        → (List ℕ → E → List ℕ × E)
        → E
        → Result (spi.Device × DmaBuffers) × DmaState spi
        → Result (Unit {0}) × (DmaState spi × E)
    stage_write addr len fill e (ok (dev, s), c) = launch_write addr len fill dev s e
    stage_write addr len fill e (err x, c) = (err x, (c, e))
    stage_write addr len fill e (_, c) = (panic, (c, e))

    -- `E` is what `fill` has captured.
    unfoldable pub start_write :
        Address → ℕ → (List ℕ → E → List ℕ × E) → Exec (Transceiver spi × E) (Unit {0})
    unfolding take_idle
    start_write addr len fill =
        with_lock_mut_env (λ (c, e). stage_write addr len fill e (take_idle c))

  abbrev pub return_idle : spi.Transaction → Result (Unit {0}) × DmaState spi
  return_idle txn = let (dev, s) = spi.wait txn in (ok tt, idle dev s)

  unfoldable pub finish_write : Exec (Transceiver spi) (Unit {0})
  unfolding take_in_flight
  finish_write = with_lock_mut (do txn ← take_in_flight; λ _. return_idle txn)

  abbrev pub drain : Exec (DmaState spi) (Unit {0})
  drain (in_flight txn) = return_idle txn
  drain c = (ok tt, c)

  -- A busy cell makes `abort` do nothing.
  unfoldable pub abort : Transceiver spi → Transceiver spi
  abort t = (with_lock_mut drain t).1
