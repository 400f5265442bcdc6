-- ===== src/Transceiver/Flight.antt =====
-- wiznet-rs/src/transiver.rs: the asynchronous transfers and `abort` on a ready bus.
use wiznet_rs.Prelude.{
  ℕ, ◌+◌, ◌≤◌, ◌≡◌, refl, ◌∙◌, Bool, true, false, ◌⊎◌, inl, inr, Bool-cases, List, arith, length,
  ltb,
}
use wiznet_rs.Exec.{would_block, ok, err, ◌>>=◌, Returned}
use wiznet_rs.Safe.{Safe}
use wiznet_rs.Cell.{with_lock_mut, with_lock_mut_env}
use wiznet_rs.Spi.{DmaBuffers, interrupt, SpiDmaDevice, KeepsBuffers}
use wiznet_rs.Ring.{copy_to, bytes_at}
use wiznet_rs.Transceiver.Block.{header_len, Address, create_header}
use wiznet_rs.Transceiver.Sound.{IsSized, length-copy_to, stage_header, slice-some}
use wiznet_rs.Transceiver.Batch.{Operation}
use wiznet_rs.Transceiver.Execute.{transaction, DmaState, pending, idle, in_flight, Transceiver}
use wiznet_rs.Transceiver.Ready.{Both, Settled, IsReady, Safe-with_lock_mut}
use wiznet_rs.Transceiver.Async.{
  abort, drain, take_idle, launched, launch_read, start_read, take_in_flight, finish_read,
  launch_write, stage_write, start_write,
}

module _ (spi : SpiDmaDevice) (keeps : KeepsBuffers spi) (size : ℕ) where
  launched-Settled :
      (dev : spi.Device) (s : DmaBuffers)
      → IsSized size s
      → (o : spi.Transaction ⊎ (spi.Device × DmaBuffers)) → spi.transceive dev s interrupt ≡ o
      → Returned (launched spi o).0 × Settled spi size (launched spi o).1
  launched-Settled dev s z (inl txn) e =
      let (rx_same, tx_same) = keeps.done dev s interrupt txn e in
      (tt, record { rx_size = rx_same ∙ z.rx_size; tx_size = tx_same ∙ z.tx_size })
  launched-Settled dev s z (inr (dev', s')) e =
      let (rx_same, tx_same) = keeps.refused dev dev' s s' interrupt e in
      (tt, record { rx_size = rx_same ∙ z.rx_size; tx_size = tx_same ∙ z.tx_size })

  launch_read-Settled :
      (addr : Address) (len : ℕ) (dev : spi.Device) (s : DmaBuffers)
      → IsSized size s
      → Returned (launch_read spi addr len dev s).0
        × Settled spi size (launch_read spi addr len dev s).1
  launch_read-Settled addr len dev s z = elim (Bool-cases (ltb (length s.tx) (header_len + len))) [
    | inl small ↦ rw small (tt, z)
    | inr room ↦
        rw (room, stage_header s.tx addr false len (ground arith))
          (launched-Settled dev _
            (record {
              rx_size = z.rx_size;
              tx_size = length-copy_to s.tx 0 (create_header addr false) ∙ z.tx_size;
            })
            _ refl)
  ]

  -- `start_read` returns on every path and leaves the device ready: idle, or in flight.
  pub start_read-Safe :
      (addr : Address) (len : ℕ) → Safe (IsReady spi size) (start_read spi addr len)
  unfolding start_read take_idle
  start_read-Safe addr len = Safe-with_lock_mut spi size _ (record { at = body })
    where
      body :
          (c : DmaState spi)
          → Settled spi size c
          → let m = (do (dev, s) ← take_idle spi; λ _. launch_read spi addr len dev s) c in
            Returned m.0 × Settled spi size m.1
      body pending h = absurd h
      body (in_flight txn) h = (tt, h)
      body (idle dev s) h = launch_read-Settled addr len dev s h

  module _ {E : Type 0} (J : E → Type 0) where
    launch_write-Settled :
        (addr : Address) (len : ℕ) (fill : List ℕ → E → List ℕ × E)
        → ((buf : List ℕ) (e : E) → J e → J (fill buf e).1)
        → (dev : spi.Device) (s : DmaBuffers) (e : E) → IsSized size s
        → J e
        → let m = launch_write spi addr len fill dev s e in
          Returned m.0 × Settled spi size m.1.0 × J m.1.1
    launch_write-Settled addr len fill k dev s e z j =
        elim (Bool-cases (ltb (length s.tx) (header_len + len))) [
          | inl small ↦ rw small (tt, z, j)
          | inr room ↦
              let fits : header_len + len ≤ length s.tx = ground arith in
              let headed = copy_to s.tx 0 (create_header addr true) in
              let window = bytes_at headed header_len len in
              let same : length headed ≡ length s.tx =
                length-copy_to s.tx 0 (create_header addr true) in
              let inside : header_len + len ≤ length headed = omega (arith, same, fits) in
              let (back, settled) =
                launched-Settled dev _
                  (record {
                    rx_size = z.rx_size;
                    tx_size = length-copy_to headed header_len (fill window e).0 ∙ same ∙ z.tx_size;
                  })
                  _ refl in
              rw
                (
                  room,
                  stage_header s.tx addr true len fits,
                  slice-some headed header_len len inside,
                )
                (back, settled, k window e j)
        ]

    -- `start_write` does the same, and `fill` is called once at most: what holds of its captured
    -- state and survives `fill` holds after.
    pub start_write-Safe :
        (addr : Address) (len : ℕ) (fill : List ℕ → E → List ℕ × E)
        → ((buf : List ℕ) (e : E) → J e → J (fill buf e).1)
        → Safe (Both spi size J) (start_write spi addr len fill)
    unfolding start_write with_lock_mut_env take_idle
    start_write-Safe addr len fill k = record {
      at = λ (t, e) (h, j).
          let (back, settled, j') = body t.cell e h.settled j in
          rw h.unlocked (back, (record { unlocked = refl; settled = settled }, j'));
    }
      where
        body :
            (c : DmaState spi) (e : E)
            → Settled spi size c
            → J e
            → let m = stage_write spi addr len fill e (take_idle spi c) in
              Returned m.0 × Settled spi size m.1.0 × J m.1.1
        body pending e h j = absurd h
        body (in_flight txn) e h j = (tt, h, j)
        body (idle dev s) e h j = launch_write-Settled addr len fill k dev s e h j

module _ (spi : SpiDmaDevice) where
  -- The completion of a read hands `consume` the bytes that came in behind the header, and makes
  -- the device idle.
  pub finish_read_lem :
      {E : Type 0} (size len : ℕ) (consume : List ℕ → E → E) (txn : spi.Transaction) (e : E)
      → IsSized size (spi.wait txn).1
      → header_len + len ≤ size
      → finish_read spi len consume (record { cell = in_flight txn; busy = false }, e) ≡ (
        ok tt,
        (
          record { cell = idle (spi.wait txn).0 (spi.wait txn).1; busy = false },
          consume (bytes_at (spi.wait txn).1.rx header_len len) e,
        ),
      )
  unfolding finish_read with_lock_mut_env take_in_flight
  finish_read_lem size len consume txn e z h =
      rw (slice-some (spi.wait txn).1.rx header_len len (omega (arith, z.rx_size))) refl

  -- While a transfer is in flight, whether its lock is held or not, a transaction and the start of
  -- a read or of a write are refused with `WouldBlock`, and change neither the bus nor what the
  -- write's closure has captured.
  pub in_flight_refuses :
      {E : Type 0} (txn : spi.Transaction) (busy : Bool) (ops : List Operation) (addr : Address)
      (len : ℕ) (fill : List ℕ → E → List ℕ × E) (e : E)
      → let t : Transceiver spi = record { cell = in_flight txn; busy = busy } in
        (transaction spi ops t ≡ (err would_block, t))
        × (start_read spi addr len t ≡ (err would_block, t))
        × (start_write spi addr len fill (t, e) ≡ (err would_block, (t, e)))
  unfolding start_read start_write take_idle transaction with_lock_mut with_lock_mut_env
  in_flight_refuses txn true ops addr len fill e = (refl, refl, refl)
  in_flight_refuses txn false ops addr len fill e = (refl, refl, refl)

  -- the device is there to be used
  abbrev pub IsIdle : DmaState spi → Type 0
  IsIdle (idle dev s) = Unit
  IsIdle _ = ⊥

  drain-IsIdle :
      (size : ℕ) (c : DmaState spi)
      → Settled spi size c
      → let (r, c') = drain spi c in IsIdle c' × Settled spi size c'
  drain-IsIdle size pending h = absurd h
  drain-IsIdle size (idle dev s) h = (tt, h)
  drain-IsIdle size (in_flight txn) h = (tt, h)

  -- `abort` on a ready bus, a transfer in flight or not, leaves it ready and the device idle.
  pub abort-IsIdle :
      (size : ℕ) (t : Transceiver spi)
      → IsReady spi size t
      → IsIdle (abort spi t).cell × IsReady spi size (abort spi t)
  unfolding abort with_lock_mut
  abort-IsIdle size t h =
      let (there, kept) = drain-IsIdle size t.cell h.settled in
      rw h.unlocked (there, record { unlocked = refl; settled = kept })
