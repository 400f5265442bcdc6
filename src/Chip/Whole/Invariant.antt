-- ===== src/Chip/Whole/Invariant.antt =====
-- wiznet-rs/src/lib.rs: what holds of the driver between two of its calls.
use wiznet_rs.Prelude.{ℕ, ◌≡◌, refl, false, length}
use wiznet_rs.Exec.{Exec}
use wiznet_rs.Safe.{Safe}
use wiznet_rs.Cell.{with_lock_mut_env}
use wiznet_rs.Spi.{SpiDmaDevice}
use wiznet_rs.Transceiver.Execute.{Transceiver}
use wiznet_rs.Transceiver.Ready.{IsReady}
use wiznet_rs.Chip.State.{OutputPin, W6100, Locked, with_device, on_transport}
use wiznet_rs.Chip.Round.{AllValid}
use wiznet_rs.Chip.Whole.Mark.{Marked}

module _ (spi : SpiDmaDevice) (out : OutputPin) (size n : ℕ) where
  -- The bus is ready, every socket's rings are in order, and a recorded transfer is one of the
  -- `n` sockets' and fits the buffers.
  pub record LockedReady (l : Locked spi out) : Type 0 where
    pub bus : IsReady spi size l.device.transport
    pub rings : AllValid l.sockets
    pub count : length l.sockets ≡ n
    pub mark : Marked size n l.bulk.cell

  pub record ChipReady (w : W6100 spi out) : Type 0 where
    pub unlocked : w.device.busy ≡ false
    pub bus : IsReady spi size w.device.cell.transport
    pub rings : AllValid w.sockets
    pub count : length w.sockets ≡ n
    pub mark : Marked size n w.bulk.cell

  module _ {A : Type 0} where
    -- A critical section of the device that keeps the rest in order does so for the driver.
    pub Safe-with_device :
        (body : Exec (Locked spi out) A)
        → Safe LockedReady body
        → Safe ChipReady (with_device spi out body)
    unfolding with_lock_mut_env
    Safe-with_device body k = record {
      at = λ w h.
          let (back, l) =
            k.at (record { device = w.device.cell; sockets = w.sockets; bulk = w.bulk })
              (record { bus = h.bus; rings = h.rings; count = h.count; mark = h.mark }) in
          rw h.unlocked (
            back,
            record {
              unlocked = refl;
              bus = l.bus;
              rings = l.rings;
              count = l.count;
              mark = l.mark;
            },
          );
    }

    pub Safe-on_transport :
        (m : Exec (Transceiver spi) A)
        → Safe (IsReady spi size) m
        → Safe LockedReady (on_transport spi out m)
    Safe-on_transport m k = record {
      at = λ l h.
          let (back, bus) = k.at l.device.transport h.bus in
          (back, record { bus = bus; rings = h.rings; count = h.count; mark = h.mark });
    }
