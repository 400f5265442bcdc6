-- ===== src/Chip/Round.antt =====
-- wiznet-rs/src/lib.rs: the loop of `W6100::run` over the sockets.
use wiznet_rs.Prelude.{ℕ, ◌+◌, Bool, true, false, List, [], ◌∷◌, Option}
use wiznet_rs.Exec.{Result, ok, err, panic, out_of_fuel, would_block, other, map_ok, Quiet}
use wiznet_rs.Cell.{AtomicCell, with_lock_mut_env}
use wiznet_rs.Spi.{SpiDmaDevice, KeepsBuffers}
use wiznet_rs.Transceiver.Block.{BlockAddress}
use wiznet_rs.Transceiver.Execute.{Transceiver}
use wiznet_rs.Transceiver.Ready.{IsReady}
use wiznet_rs.Ring.Bounds.{IsValid}
use wiznet_rs.Tick.{BulkAction, started, SocketRings}
use wiznet_rs.Backend
use wiznet_rs.Backend.{BackendState, free, tcp, udp, SocketBackend, Socket}
use wiznet_rs.Backend.Sound.{slot_run_lem}
use wiznet_rs.Chip.State.{BulkOp}
use wiznet_rs.Chip.Service.{run_socket, Visit, after, run_sockets}

-- Both rings of a socket are in order.
abbrev pub RingsValid : SocketRings → Type 0
RingsValid r = IsValid r.rx × IsValid r.tx

-- A slot that is in use has valid rings; a free one may have none yet.
abbrev pub InOrder : BackendState → SocketRings → Type 0
InOrder free r = Unit
InOrder _ r = RingsValid r

pub valid-InOrder : (st : BackendState) (r : SocketRings) → RingsValid r → InOrder st r
valid-InOrder free r v = tt
valid-InOrder (tcp t) r v = v
valid-InOrder (udp u) r v = v

abbrev pub AllValid : List Socket → Type 0
AllValid [] = Unit
AllValid (s ∷ ss) = InOrder s.backend.cell.state s.rings × AllValid ss

-- A result that is no failure: with a transfer that was started, or none.
abbrev pub Succeeds : Result (Option BulkOp) → Type 0
Succeeds (ok op) = Unit
Succeeds _ = ⊥

module _ (spi : SpiDmaDevice) (keeps : KeepsBuffers spi) (size : ℕ) where
  -- a slot's outcome under its lock
  unfoldable pub Slot :
      Result (BulkAction × BlockAddress)
        × (AtomicCell SocketBackend × (Transceiver spi × SocketRings))
      → Type 0
  Slot (r, (b, (t, rings))) = Quiet r × IsReady spi size t × InOrder b.cell.state rings

  map_ok-Quiet :
      (r : Result BulkAction) (block : BlockAddress)
      → Quiet r
      → Quiet {A = BulkAction × BlockAddress} (map_ok (λ a. (a, block)) r)
  map_ok-Quiet (ok a) block q = tt
  map_ok-Quiet (err would_block) block q = tt
  map_ok-Quiet (err (other e)) block q = absurd q
  map_ok-Quiet panic block q = absurd q
  map_ok-Quiet out_of_fuel block q = absurd q

  used-Slot :
      (value : SocketBackend) (t : Transceiver spi) (rings : SocketRings)
      → IsReady spi size t
      → RingsValid rings
      → Slot (run_socket spi (record { cell = value; busy = false }, (t, rings)))
  unfolding run_socket with_lock_mut_env Slot
  used-Slot value t rings h v =
      let s : Backend.BackendTick spi = record { trans = t; rings = rings; proto = value } in
      let (quiet, k, same, settled) =
        slot_run_lem spi keeps size s
          (record { bus = h; rx_valid = v.0; tx_valid = v.1; proto_ok = tt }) in
      (
        map_ok-Quiet (Backend.run spi s).0 (Backend.run spi s).1.proto.block quiet,
        k.bus,
        valid-InOrder (Backend.run spi s).1.proto.state _ (k.rx_valid, k.tx_valid),
      )

  free-Slot :
      (block : BlockAddress) (release : Bool) (t : Transceiver spi) (rings : SocketRings)
      → IsReady spi size t
      → let b : SocketBackend = record {
        block = block;
        state = free;
        release_requested = release;
      } in
        Slot (run_socket spi (record { cell = b; busy = false }, (t, rings)))
  unfolding run_socket with_lock_mut_env Slot Backend.run Backend.run_state Backend.settle_release
      Backend.is_terminal
  free-Slot block true t rings h = (tt, h, tt)
  free-Slot block false t rings h = (tt, h, tt)

  unlocked-Slot :
      (block : BlockAddress) (st : BackendState) (release : Bool) (t : Transceiver spi)
      (rings : SocketRings)
      → IsReady spi size t
      → InOrder st rings
      → let b : SocketBackend = record { block = block; state = st; release_requested = release } in
        Slot (run_socket spi (record { cell = b; busy = false }, (t, rings)))
  unlocked-Slot block free release t rings h v = free-Slot block release t rings h
  unlocked-Slot block (tcp p) release t rings h v = used-Slot _ t rings h v
  unlocked-Slot block (udp p) release t rings h v = used-Slot _ t rings h v

  pub run_socket-Slot :
      (value : SocketBackend) (busy : Bool) (t : Transceiver spi) (rings : SocketRings)
      → IsReady spi size t
      → InOrder value.state rings
      → Slot (run_socket spi (record { cell = value; busy = busy }, (t, rings)))
  unfolding run_socket with_lock_mut_env Slot
  run_socket-Slot value true t rings h v = (tt, h, v)
  run_socket-Slot value false t rings h v =
      unlocked-Slot value.block value.state value.release_requested t rings h v

  -- what the round leaves
  abbrev Fine : Visit spi → Type 0
  Fine (r, (ss, t)) = Succeeds r × AllValid ss × IsReady spi size t

  after-Fine :
      (idx : ℕ) (ss : List Socket) (next : Transceiver spi → Visit spi)
      → AllValid ss
      → ((t : Transceiver spi) → IsReady spi size t → Fine (next t))
      → (m : Result (BulkAction × BlockAddress)
          × (AtomicCell SocketBackend × (Transceiver spi × SocketRings)))
      → Slot m
      → Fine (after spi idx ss next m)
  unfolding Slot
  after-Fine idx ss next vs k (ok (BulkAction.none, block), (b, (t, rings))) (q, h, v) =
      let (done, rest, h') = k t h in (done, (v, rest), h')
  after-Fine idx ss next vs k (ok (started kind pointer len, block), (b, (t, rings))) (q, h, v) =
      (tt, (v, vs), h)
  after-Fine idx ss next vs k (err would_block, (b, (t, rings))) (q, h, v) =
      let (done, rest, h') = k t h in (done, (v, rest), h')
  after-Fine idx ss next vs k (err (other e), (b, (t, rings))) (q, h, v) = absurd q
  after-Fine idx ss next vs k (panic, (b, (t, rings))) (q, h, v) = absurd q
  after-Fine idx ss next vs k (out_of_fuel, (b, (t, rings))) (q, h, v) = absurd q

  -- The round over sockets of which those in use have valid rings, whichever of their locks are
  -- held elsewhere and whatever the transport answers, comes back without a panic and without an
  -- error, one socket's failure included; it leaves the bus ready and the rings of all sockets in
  -- use valid.
  pub run_sockets_lem :
      (idx : ℕ) (ss : List Socket) (t : Transceiver spi)
      → AllValid ss
      → IsReady spi size t
      → let (r, (ss', t')) = run_sockets spi idx ss t in
        Succeeds r × AllValid ss' × IsReady spi size t'
  unfolding run_sockets
  run_sockets_lem idx [] t v h = (tt, tt, h)
  run_sockets_lem idx (s ∷ ss) t v h =
      after-Fine idx ss (λ u. run_sockets spi (idx + 1) ss u) v.1
        (λ u k. run_sockets_lem (idx + 1) ss u v.1 k) (run_socket spi (s.backend, (t, s.rings)))
        (run_socket-Slot s.backend.cell s.backend.busy t s.rings h v.0)
