-- ===== src/Transceiver/Finish.antt =====
-- wiznet-rs/src/transiver.rs: the completion of an asynchronous transfer on a ready bus.
use wiznet_rs.Prelude.{ℕ, ◌+◌, ◌≤◌, refl, List, arith}
use wiznet_rs.Exec.{◌>>=◌, Returned}
use wiznet_rs.Safe.{Safe}
use wiznet_rs.Cell.{with_lock_mut_env}
use wiznet_rs.Spi.{SpiDmaDevice}
use wiznet_rs.Transceiver.Block.{header_len}
use wiznet_rs.Transceiver.Sound.{slice-some}
use wiznet_rs.Transceiver.Execute.{DmaState, pending, idle, in_flight}
use wiznet_rs.Transceiver.Ready.{Both, Settled, IsReady, Safe-with_lock_mut}
use wiznet_rs.Transceiver.Async.{take_in_flight, collect, finish_read, return_idle, finish_write}

module _ (spi : SpiDmaDevice) (size : ℕ) where
  module _ {E : Type 0} (J : E → Type 0) where
    -- The completion of a read of no more than the buffers hold does not reach the slice panic,
    -- also where nothing is in flight, and what survives `consume` holds after.
    pub finish_read-Safe :
        (len : ℕ) (consume : List ℕ → E → E)
        → ((payload : List ℕ) (e : E) → J e → J (consume payload e))
        → header_len + len ≤ size
        → Safe (Both spi size J) (finish_read spi len consume)
    unfolding finish_read with_lock_mut_env take_in_flight
    finish_read-Safe len consume k fits = record {
      at = λ (t, e) (h, j).
          let (back, settled, j') = body t.cell e h.settled j in
          rw h.unlocked (back, (record { unlocked = refl; settled = settled }, j'));
    }
      where
        body :
            (c : DmaState spi) (e : E)
            → Settled spi size c
            → J e
            → let m = collect spi len consume e (take_in_flight spi c) in
              Returned m.0 × Settled spi size m.1.0 × J m.1.1
        body pending e h j = absurd h
        body (idle dev s) e h j = (tt, h, j)
        body (in_flight txn) e h j =
            rw (slice-some (spi.wait txn).1.rx header_len len (omega (arith, fits, h.rx_size)))
              (tt, h, k _ e j)

  pub finish_write-Safe : Safe (IsReady spi size) (finish_write spi)
  unfolding finish_write take_in_flight
  finish_write-Safe = Safe-with_lock_mut spi size _ (record { at = body })
    where
      body :
          (c : DmaState spi)
          → Settled spi size c
          → let m = (do txn ← take_in_flight spi; λ _. return_idle spi txn) c in
            Returned m.0 × Settled spi size m.1
      body pending h = absurd h
      body (idle dev s) h = (tt, h)
      body (in_flight txn) h = (tt, h)
