-- ===== src/Tcp/Promise.antt =====
-- wiznet-rs/src/tcp_socket.rs: `receive`, and what its completion needs.
use wiznet_rs.Prelude.{
  ℕ, ◌+◌, ◌≤◌, ◌≡◌, refl, ap, ◌∙◌, min, false, ◌⊎◌, inl, inr, Bool-cases, arith, length, ltb, ◌==◌,
}
use wiznet_rs.Exec.{Exec, Result, ok, err, panic, out_of_fuel, pure, ◌>>=◌, ◌>>◌}
use wiznet_rs.Safe.{Safe, Post, Post-bind, Post-if, Post-lift, Post-always}
use wiznet_rs.Cell.{with_lock_mut}
use wiznet_rs.Spi.{DmaBuffers, interrupt, SpiDmaDevice, KeepsBuffers}
use wiznet_rs.Ring
use wiznet_rs.Transceiver.Block.{BlockAddress, Address, header_len, create_header}
use wiznet_rs.Transceiver.Sound.{IsSized, length-copy_to, stage_header}
use wiznet_rs.Transceiver.Execute.{DmaState, pending, idle, in_flight, Transceiver}
use wiznet_rs.Transceiver.Async.{take_idle, launched, launch_read, start_read}
use wiznet_rs.Transceiver.Ready.{Settled, IsReady}
use wiznet_rs.Ring.{copy_to}
use wiznet_rs.Registers.Access.{start_read_rx_buffer, get_rx_received_size, get_rx_read_pointer}
use wiznet_rs.Registers.Ready.{get_rx_received_size-Safe, get_rx_read_pointer-Safe}
use wiznet_rs.Tick.{BulkKind, BulkAction, started, on_trans}
use wiznet_rs.Tick.Ready.{Ready, Safe-on_trans}
use wiznet_rs.Tcp.State.{TcpTick}
use wiznet_rs.Tcp.Transfer.{receive}

module _ (spi : SpiDmaDevice) (keeps : KeepsBuffers spi) (size : ℕ) where
  -- A transfer is in flight, and gives back buffers of `size` bytes.
  abbrev pub Airborne : Transceiver spi → Type 0
  Airborne t =
      (txn : spi.Transaction) × (t ≡ record { cell = in_flight txn; busy = false })
      × IsSized size (spi.wait txn).1

  -- A read of `len` bytes is in flight, and the bytes and the header fit the buffers.
  abbrev pub Reading : ℕ → Unit {0} → Transceiver spi → Type 0
  Reading len u t = Airborne t × (header_len + len ≤ size)

  abbrev at_rest : DmaState spi → Transceiver spi
  at_rest c = record { cell = c; busy = false }

  launched-Post :
      (len : ℕ) (dev : spi.Device) (s : DmaBuffers)
      → IsSized size s
      → header_len + len ≤ size
      → (o : spi.Transaction ⊎ (spi.Device × DmaBuffers)) → spi.transceive dev s interrupt ≡ o
      → Post (λ u c. Reading len u (at_rest c)) (launched spi o).0 (launched spi o).1
  launched-Post len dev s z fits (inl txn) e =
      let (rx_same, tx_same) = keeps.done dev s interrupt txn e in
      ((txn, refl, record { rx_size = rx_same ∙ z.rx_size; tx_size = tx_same ∙ z.tx_size }), fits)
  launched-Post len dev s z fits (inr (dev', s')) e = tt

  launch_read-Post :
      (addr : Address) (len : ℕ) (dev : spi.Device) (s : DmaBuffers)
      → IsSized size s
      → let (r, c) = launch_read spi addr len dev s in Post (λ u c'. Reading len u (at_rest c')) r c
  launch_read-Post addr len dev s z = elim (Bool-cases (ltb (length s.tx) (header_len + len))) [
    | inl small ↦ rw small tt
    | inr room ↦
        rw (room, stage_header s.tx addr false len (ground arith))
          (launched-Post len dev _
            (record {
              rx_size = z.rx_size;
              tx_size = length-copy_to s.tx 0 (create_header addr false) ∙ z.tx_size;
            })
            (ground (arith, z.tx_size)) _ refl)
  ]

  from_cell :
      (addr : Address) (len : ℕ) (c : DmaState spi)
      → Settled spi size c
      → let (r, c') = (do (dev, s) ← take_idle spi; λ _. launch_read spi addr len dev s) c in
        Post (λ u c''. Reading len u (at_rest c'')) r c'
  unfolding take_idle
  from_cell addr len pending h = absurd h
  from_cell addr len (in_flight txn) h = tt
  from_cell addr len (idle dev s) h = launch_read-Post addr len dev s h

  pub start_read-Reading :
      (addr : Address) (len : ℕ) (t : Transceiver spi)
      → IsReady spi size t
      → let (r, t') = start_read spi addr len t in Post (Reading len) r t'
  unfolding start_read with_lock_mut
  start_read-Reading addr len t h =
      rw h.unlocked (Post-lift (Reading len) at_rest _ _ (from_cell addr len t.cell h.settled))

  -- The bus is ready, and the rings are those of `s`.
  abbrev Same : {A : Type 0} → TcpTick spi → A → TcpTick spi → Type 0
  Same s a s' = Ready spi size s' × (s'.rings ≡ s.rings)

  -- A call of the bus leaves the rings alone.
  on_trans-Same :
      {A : Type 0} (m : Exec (Transceiver spi) A) (s : TcpTick spi)
      → Safe (IsReady spi size) m
      → Ready spi size s
      → let (r, s') = on_trans m s in Post (Same {A = A} s) r s'
  on_trans-Same m s k h =
      Post-always (Same s) (on_trans m s).0 (on_trans m s).1
        (λ a. (((Safe-on_trans m k).at s h).1, refl))

  -- A started read and the rings.
  abbrev Begun : ℕ → TcpTick spi → Unit {0} → TcpTick spi → Type 0
  Begun len s u s' = Reading len u s'.trans × (s'.rings ≡ s.rings)

  begun :
      (len : ℕ) (s : TcpTick spi) (r : Result (Unit {0})) (t : Transceiver spi)
      → Post (Reading len) r t
      → Post (Begun len s) r (record s { trans = t })
  begun len s (ok u) t p = (p, refl)
  begun len s (err e) t p = tt
  begun len s panic t p = tt
  begun len s out_of_fuel t p = tt

module _ (spi : SpiDmaDevice) (keeps : KeepsBuffers spi) (size : ℕ) (block : BlockAddress) where
  -- What the completion of the started transfer needs.
  abbrev pub Promise : BulkAction → TcpTick spi → Type 0
  Promise (started BulkKind.receive pointer len) s =
      Airborne spi keeps size s.trans × (header_len + len ≤ size) × (len ≤ Ring.free s.rings.rx)
  Promise _ s = Unit

  fly :
      (available pointer : ℕ) (s1 s2 : TcpTick spi)
      → Ready spi size s2
      → s2.rings ≡ s1.rings
      → let to_read = min available (Ring.free s1.rings.rx) in
        let (r, s3) =
          (do
            on_trans (start_read_rx_buffer spi block pointer to_read)
            pure (started BulkKind.receive pointer to_read))
            s2 in
        Post Promise r s3
  unfolding start_read_rx_buffer
  fly available pointer s1 s2 h e =
      let n = min available (Ring.free s1.rings.rx) in
      Post-bind (Begun spi keeps size n s2) Promise
        (on_trans (start_read_rx_buffer spi block pointer n)) _ s2
        (begun spi keeps size n s2 _ _ (start_read-Reading spi keeps size _ n s2.trans h.bus))
        (λ u s3 ((air, fits), same).
          (air, fits, omega (arith, ap (λ r. Ring.free r.rx) (same ∙ e))))

  -- On a ready bus and valid rings, a receive that `receive` reports as started is in flight, fits
  -- the scratch buffers behind its header, and has room in the rx ring.
  pub receive_lem :
      (s : TcpTick spi) → Ready spi size s → let (r, s') = receive spi block s in Post Promise r s'
  unfolding receive
  receive_lem s h =
      Post-bind (Same spi keeps size s) Promise (on_trans (get_rx_received_size spi block)) _ s
        (on_trans-Same spi keeps size _ s (get_rx_received_size-Safe spi keeps size block) h)
        (λ available s1 (h1, e1). Post-if Promise (available == 0) (pure BulkAction.none) _ s1 tt (
          Post-if Promise (min available (Ring.free s1.rings.rx) == 0) (pure BulkAction.none) _ s1
            tt
            (Post-bind (Same spi keeps size s1) Promise (on_trans (get_rx_read_pointer spi block)) _
              s1
              (on_trans-Same spi keeps size _ s1 (get_rx_read_pointer-Safe spi keeps size block) h1)
              (λ pointer s2 (h2, e2). fly available pointer s1 s2 h2 e2))))
