-- ===== src/Chip/Whole/Mark.antt =====
-- wiznet-rs/src/lib.rs: the transfer that a round over the sockets starts and `run` records.
use wiznet_rs.Prelude.{
  ℕ, suc, ◌+◌, ◌<◌, ◌≡◌, refl, ap, Bool, true, false, List, [], ◌∷◌, Option, none, some, arith,
  length,
}
use wiznet_rs.Exec.{Result, ok, err, panic, out_of_fuel, would_block, other, map_ok}
use wiznet_rs.Cell.{AtomicCell, with_lock_mut_env}
use wiznet_rs.Yields.{Given}
use wiznet_rs.Spi.{SpiDmaDevice, KeepsBuffers}
use wiznet_rs.Transceiver.Block.{BlockAddress}
use wiznet_rs.Transceiver.Execute.{Transceiver}
use wiznet_rs.Transceiver.Ready.{IsReady}
use wiznet_rs.Tick.{BulkAction, started, SocketRings}
use wiznet_rs.Tick.Fits.{LenFits, ActionFits}
use wiznet_rs.Backend
use wiznet_rs.Backend.{BackendState, free, tcp, udp, SocketBackend, Socket}
use wiznet_rs.Backend.Fits.{slot_run-Given}
use wiznet_rs.Chip.State.{BulkOp}
use wiznet_rs.Chip.Service.{run_socket, Visit, after, run_sockets}
use wiznet_rs.Chip.Round.{RingsValid, InOrder, AllValid, Slot, run_socket-Slot}

-- A recorded transfer is one of the first `n` sockets', and fits the scratch buffers.
abbrev pub Marked : (size n : ℕ) → Option BulkOp → Type 0
Marked size n none = Unit
Marked size n (some op) = (op.idx < n) × LenFits size op.len

module _ (spi : SpiDmaDevice) (keeps : KeepsBuffers spi) (size : ℕ) where
  map_ok-Given :
      (r : Result BulkAction) (block : BlockAddress)
      → Given (ActionFits size) r
      → Given (λ (m : BulkAction × BlockAddress). ActionFits size m.0) (map_ok (λ a. (a, block)) r)
  map_ok-Given (ok a) block g = g
  map_ok-Given (err e) block g = tt
  map_ok-Given panic block g = tt
  map_ok-Given out_of_fuel block g = tt

  used-Given :
      (value : SocketBackend) (t : Transceiver spi) (rings : SocketRings)
      → IsReady spi size t
      → RingsValid rings
      → Given
          (λ (m : BulkAction × BlockAddress). ActionFits size m.0)
          (run_socket spi (record { cell = value; busy = false }, (t, rings))).0
  unfolding run_socket with_lock_mut_env
  used-Given value t rings h v =
      let s : Backend.BackendTick spi = record { trans = t; rings = rings; proto = value } in
      map_ok-Given (Backend.run spi s).0 (Backend.run spi s).1.proto.block (
        slot_run-Given spi keeps size s
          (record { bus = h; rx_valid = v.0; tx_valid = v.1; proto_ok = tt }))

  unlocked-Given :
      (block : BlockAddress) (st : BackendState) (release : Bool) (t : Transceiver spi)
      (rings : SocketRings)
      → IsReady spi size t
      → InOrder st rings
      → let b : SocketBackend = record { block = block; state = st; release_requested = release } in
        Given
          (λ (m : BulkAction × BlockAddress). ActionFits size m.0)
          (run_socket spi (record { cell = b; busy = false }, (t, rings))).0
  unfolding run_socket with_lock_mut_env Backend.run Backend.run_state
  unlocked-Given block free release t rings h v = tt
  unlocked-Given block (tcp p) release t rings h v =
      used-Given (record { block = block; state = tcp p; release_requested = release }) t rings h v
  unlocked-Given block (udp p) release t rings h v =
      used-Given (record { block = block; state = udp p; release_requested = release }) t rings h v

  run_socket-Given :
      (value : SocketBackend) (busy : Bool) (t : Transceiver spi) (rings : SocketRings)
      → IsReady spi size t
      → InOrder value.state rings
      → Given
          (λ (m : BulkAction × BlockAddress). ActionFits size m.0)
          (run_socket spi (record { cell = value; busy = busy }, (t, rings))).0
  unfolding run_socket with_lock_mut_env
  run_socket-Given value true t rings h v = tt
  run_socket-Given value false t rings h v =
      unlocked-Given value.block value.state value.release_requested t rings h v

  -- as many sockets as before, and a transfer of one of them
  abbrev Counted : (n count : ℕ) → Visit spi → Type 0
  Counted n count (r, (ss, t)) = Given (Marked size n) r × (length ss ≡ count)

  after-Counted :
      (n idx : ℕ) (ss : List Socket) (next : Transceiver spi → Visit spi)
      → idx < n
      → ((t : Transceiver spi) → IsReady spi size t → Counted n (length ss) (next t))
      → (m : Result (BulkAction × BlockAddress)
          × (AtomicCell SocketBackend × (Transceiver spi × SocketRings)))
      → Slot spi keeps size m
      → Given (λ (p : BulkAction × BlockAddress). ActionFits size p.0) m.0
      → Counted n (suc (length ss)) (after spi idx ss next m)
  unfolding Slot
  after-Counted n idx ss next i k (ok (BulkAction.none, block), (b, (t, rings))) (q, h, v) g =
      let (mark, same) = k t h in (mark, ap suc same)
  after-Counted n idx ss next i k (ok (started kind pointer len, block), (b, (t, rings))) (q, h, v)
        g =
      ((i, g), refl)
  after-Counted n idx ss next i k (err would_block, (b, (t, rings))) (q, h, v) g =
      let (mark, same) = k t h in (mark, ap suc same)
  after-Counted n idx ss next i k (err (other e), (b, (t, rings))) s g = (tt, refl)
  after-Counted n idx ss next i k (panic, (b, (t, rings))) s g = (tt, refl)
  after-Counted n idx ss next i k (out_of_fuel, (b, (t, rings))) s g = (tt, refl)

  -- The round keeps the number of sockets, and the transfer it starts is one of theirs.
  pub run_sockets-Marked :
      (n idx : ℕ) (ss : List Socket) (t : Transceiver spi)
      → idx + length ss ≡ n
      → AllValid ss
      → IsReady spi size t
      → let (r, (ss', t')) = run_sockets spi idx ss t in
        Given (Marked size n) r × (length ss' ≡ length ss)
  unfolding run_sockets
  run_sockets-Marked n idx [] t e v h = (tt, refl)
  run_sockets-Marked n idx (s ∷ ss) t e v h =
      after-Counted n idx ss (λ u. run_sockets spi (idx + 1) ss u) (omega (arith, e))
        (λ u k. run_sockets-Marked n (idx + 1) ss u (omega (arith, e)) v.1 k)
        (run_socket spi (s.backend, (t, s.rings)))
        (run_socket-Slot spi keeps size s.backend.cell s.backend.busy t s.rings h v.0)
        (run_socket-Given s.backend.cell s.backend.busy t s.rings h v.0)
