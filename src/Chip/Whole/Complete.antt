-- ===== src/Chip/Whole/Complete.antt =====
-- wiznet-rs/src/lib.rs: `dma_complete` on a driver in order, whatever the transport answers.
use wiznet_rs.Prelude.{
  ℕ, ◌≡◌, refl, arith, ◌∙◌, Bool, true, false, Option, none, some, if◌then◌else◌,
}
use wiznet_rs.Exec.{Result, ok, err, panic, out_of_fuel, Exec, Returned}
use wiznet_rs.Safe.{Safe}
use wiznet_rs.Spi.{SpiDmaDevice, KeepsBuffers}
use wiznet_rs.Chip.State.{BulkOp, OutputPin, W6100, with_device}
use wiznet_rs.Chip.Reset.{clear_bulk}
use wiznet_rs.Chip.Service.{service, ignored, quietly, finish_locked, complete, dma_complete}
use wiznet_rs.Chip.Whole.Mark.{Marked}
use wiznet_rs.Chip.Whole.Invariant.{LockedReady, ChipReady, Safe-with_device}
use wiznet_rs.Chip.Whole.Reset.{clear_bulk-Marked}
use wiznet_rs.Chip.Whole.Finish.{finish_at-AllValid}
use wiznet_rs.Chip.Whole.Tend.{service-Safe}

module _ (spi : SpiDmaDevice) (keeps : KeepsBuffers spi) (size : ℕ) (out : OutputPin) (n : ℕ) where
  -- a call that has come back with `Ok`, and with the driver in order
  abbrev Done : Result (Unit {0}) × W6100 spi out → Type 0
  Done (r, w) = (r ≡ ok tt) × ChipReady spi out size n w

  ignored-Done :
      (m : Result (Unit {0}) × W6100 spi out)
      → Returned m.0
      → ChipReady spi out size n m.1
      → Done (ignored spi out m.0, m.1)
  ignored-Done (ok u, w) back h = (refl, h)
  ignored-Done (err e, w) back h = (refl, h)
  ignored-Done (panic, w) back h = absurd back
  ignored-Done (out_of_fuel, w) back h = absurd back

  quietly-Done :
      (m : Exec (W6100 spi out) (Unit {0})) (w : W6100 spi out)
      → Safe (ChipReady spi out size n) m
      → ChipReady spi out size n w
      → Done (quietly spi out m w)
  quietly-Done m w k h = let (back, h') = k.at w h in ignored-Done (m w) back h'

  -- The completion of a transfer of one of the sockets that fits the buffers.
  finish_locked-Safe :
      (op : BulkOp)
      → Marked size n (some op)
      → Safe (LockedReady spi out size n) (finish_locked spi out op)
  finish_locked-Safe op (less, fits) = record {
    at = λ l h.
        let (back, rings, same, bus) =
          finish_at-AllValid spi keeps size op.idx op l.sockets l.device.transport
            (omega (arith, less, h.count)) fits h.rings h.bus in
        (back, record { bus = bus; rings = rings; count = same ∙ h.count; mark = h.mark });
  }

  complete-Done :
      (op : Option BulkOp) (w : W6100 spi out)
      → Marked size n op
      → ChipReady spi out size n w
      → Done (complete spi out op w)
  unfolding complete
  complete-Done none w m h = (refl, h)
  complete-Done (some op) w m h =
      let (e, h') =
        quietly-Done (with_device spi out (finish_locked spi out op)) w
          (Safe-with_device spi out size n _ (finish_locked-Safe op m)) h in
      let w' = (quietly spi out (with_device spi out (finish_locked spi out op)) w).1 in
      rw e (
        quietly-Done (service spi out) (record w' { bulk = clear_bulk w'.bulk })
          (service-Safe spi keeps size out n)
          (record {
            unlocked = h'.unlocked;
            bus = h'.bus;
            rings = h'.rings;
            count = h'.count;
            mark = clear_bulk-Marked size n w'.bulk.cell w'.bulk.busy h'.mark;
          }))

  busy-Done :
      (op : Option BulkOp) (busy : Bool) (w : W6100 spi out)
      → Marked size n op
      → ChipReady spi out size n w
      → Done (if busy then (ok tt, w) else complete spi out op w)
  busy-Done op true w m h = (refl, h)
  busy-Done op false w m h = complete-Done op w m h

  -- The completion of whatever is recorded, or of nothing, comes back with `Ok` and leaves the
  -- driver in order.
  pub dma_complete_lem :
      (w : W6100 spi out)
      → ChipReady spi out size n w
      → let (r, w') = dma_complete spi out w in (r ≡ ok tt) × ChipReady spi out size n w'
  unfolding dma_complete
  dma_complete_lem w h = busy-Done w.bulk.cell w.bulk.busy w h.mark h
