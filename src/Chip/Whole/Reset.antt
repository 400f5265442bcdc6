-- ===== src/Chip/Whole/Reset.antt =====
-- wiznet-rs/src/lib.rs: `reset` on a ready bus, whatever the chip answers.
use wiznet_rs.Prelude.{
  ℕ, ◌≡◌, refl, ap, ◌∙◌, length, Option, zero, suc, Bool, true, false, List, [], ◌∷◌, if◌then◌else◌,
}
use wiznet_rs.Exec.{
  continue, spi_error, pin_error, other, Result, ok, err, panic, out_of_fuel, Returned, map_ok,
}
use wiznet_rs.Safe.{Safe, Safe-bind, Safe-pure, Safe-raise, Safe-if}
use wiznet_rs.Cell.{AtomicCell, with_lock_mut_env}
use wiznet_rs.Spi.{SpiDmaDevice, KeepsBuffers}
use wiznet_rs.Transceiver.Batch.{Operation, delay_ns}
use wiznet_rs.Transceiver.Execute.{Transceiver}
use wiznet_rs.Transceiver.Ready.{IsReady, transaction-Safe, read_u16-Safe, write_u8-Safe}
use wiznet_rs.Transceiver.Flight.{abort-IsIdle}
use wiznet_rs.Registers.Codes.{SocketProtocolMode}
use wiznet_rs.Registers.Ready.{init_socket-Safe}
use wiznet_rs.Tick.{SocketRings}
use wiznet_rs.Backend
use wiznet_rs.Transceiver.Block.{BlockAddress}
use wiznet_rs.Backend.{BackendState, free, tcp, udp, SocketBackend, Socket}
use wiznet_rs.Chip.State.{OutputPin, BulkOp, cidr, ver}
use wiznet_rs.Chip.Reset.{
  map_err, delay, wait_for_chip, check_version, enable_chip, reset_socket, put_back, reset_sockets,
  drive, tear_down, on_sockets, reset_locked, clear_bulk, reset, max_reset_wait_iterations,
}
use wiznet_rs.Chip.Round.{InOrder, AllValid}
use wiznet_rs.Chip.Whole.Mark.{Marked}
use wiznet_rs.Chip.Whole.Invariant.{LockedReady, ChipReady, Safe-with_device, Safe-on_transport}

pub clear_bulk-Marked :
    (size n : ℕ) (op : Option BulkOp) (busy : Bool)
    → Marked size n op
    → Marked size n (clear_bulk (record { cell = op; busy = busy })).cell
unfolding clear_bulk
clear_bulk-Marked size n op true m = m
clear_bulk-Marked size n op false m = tt

module _ (spi : SpiDmaDevice) (keeps : KeepsBuffers spi) (size : ℕ) where
  delay-Safe : Safe (IsReady spi size) (delay spi)
  delay-Safe = record {
    at = λ t h.
        let (back, ready) =
          (transaction-Safe spi keeps size (delay_ns 1_000_000 ∷ []) (tt, tt)).at t h in
        (mapped _ back, ready);
  }
    where
      mapped :
          (r : Result (List Operation))
          → Returned r
          → Returned (map_err (other spi_error) (map_ok (λ _. tt {0}) r))
      mapped (ok ops) back = tt
      mapped (err e) back = tt
      mapped panic back = absurd back
      mapped out_of_fuel back = absurd back

  wait_for_chip-Safe : (left : ℕ) → Safe (IsReady spi size) (wait_for_chip spi left)
  unfolding wait_for_chip
  wait_for_chip-Safe zero =
      Safe-bind _ _ (read_u16-Safe spi keeps size cidr)
        (λ id. Safe-if _ _ _ (Safe-pure tt) (Safe-raise _))
  wait_for_chip-Safe (suc left) =
      Safe-bind _ _ (read_u16-Safe spi keeps size cidr) (λ id.
        Safe-if _ _ _ (Safe-pure tt) (Safe-bind _ _ delay-Safe (λ _. wait_for_chip-Safe left)))

  check_version-Safe : Safe (IsReady spi size) (check_version spi)
  unfolding check_version
  check_version-Safe =
      Safe-bind _ _ (read_u16-Safe spi keeps size ver)
        (λ v. Safe-if _ _ _ (Safe-pure tt) (Safe-raise _))

  enable_chip-Safe : Safe (IsReady spi size) (enable_chip spi)
  unfolding enable_chip
  enable_chip-Safe = Safe-bind _ _ (write_u8-Safe spi keeps size _ _) (λ _.
      Safe-bind _ _ (write_u8-Safe spi keeps size _ _) (λ _.
        Safe-bind _ _ (write_u8-Safe spi keeps size _ _) (λ _. write_u8-Safe spi keeps size _ _)))

  -- A reset slot is as before, made ready to start over, or free.
  reset_slot-InOrder :
      (block : BlockAddress) (st : BackendState) (release : Bool) (rings : SocketRings)
      → InOrder st rings
      → let b : SocketBackend = record { block = block; state = st; release_requested = release } in
        InOrder (Backend.reset_slot spi b).state rings
  unfolding Backend.reset_slot Backend.rearm_state
  reset_slot-InOrder block st true rings v = tt
  reset_slot-InOrder block free false rings v = tt
  reset_slot-InOrder block (tcp p) false rings v = v
  reset_slot-InOrder block (udp p) false rings v = v

  after_init :
      (r : Result (Unit {0})) (s : Backend.BackendTick spi) (rings : SocketRings)
      → Returned r
      → IsReady spi size s.trans
      → InOrder s.proto.state rings
      → let (q, u) =
          continue r
            (λ _ u. (ok (tt {0}), record u { proto = Backend.reset_slot spi u.proto }))
            s in
        Returned q × InOrder u.proto.state rings × IsReady spi size u.trans
  after_init (ok u) s rings back h v =
      (tt, reset_slot-InOrder s.proto.block s.proto.state s.proto.release_requested rings v, h)
  after_init (err e) s rings back h v = (tt, v, h)
  after_init panic s rings back h v = absurd back
  after_init out_of_fuel s rings back h v = absurd back

  -- The reset of one socket leaves the bus ready, also where the slot is held elsewhere.
  reset_socket-IsReady :
      (value : SocketBackend) (busy : Bool) (rings : SocketRings) (t : Transceiver spi)
      → InOrder value.state rings
      → IsReady spi size t
      → let (r, (b, t')) = reset_socket spi rings (record { cell = value; busy = busy }, t) in
        Returned r × InOrder b.cell.state rings × IsReady spi size t'
  unfolding reset_socket with_lock_mut_env Backend.reset
  reset_socket-IsReady value true rings t v h = (tt, v, h)
  reset_socket-IsReady value false rings t v h =
      let (back, ready) =
        (init_socket-Safe spi keeps size value.block SocketProtocolMode.closed).at t h in
      after_init _ (record { trans = _; rings = rings; proto = value }) rings back ready v

  reset_sockets-AllValid :
      (ss : List Socket) (t : Transceiver spi)
      → AllValid ss
      → IsReady spi size t
      → let (r, (ss', t')) = reset_sockets spi ss t in
        Returned r × AllValid ss' × (length ss' ≡ length ss) × IsReady spi size t'
  unfolding reset_sockets
  reset_sockets-AllValid [] t v h = (tt, tt, refl, h)
  reset_sockets-AllValid (s ∷ ss) t v h =
      let (back, kept, ready) =
        reset_socket-IsReady s.backend.cell s.backend.busy s.rings t v.0 h in
      placed (λ u k. reset_sockets-AllValid ss u v.1 k) _ back kept ready
    where
      placed :
          ((u : Transceiver spi)
            → IsReady spi size u
            → let (r, (ss', t')) = reset_sockets spi ss u in
              Returned r × AllValid ss' × (length ss' ≡ length ss) × IsReady spi size t')
          → (m : Result (Unit {0}) × (AtomicCell SocketBackend × Transceiver spi)) → Returned m.0
          → InOrder m.1.0.cell.state s.rings
          → IsReady spi size m.1.1
          → let (r, (ss', t')) = put_back spi s ss m (λ u. reset_sockets spi ss u) in
            Returned r × AllValid ss' × (length ss' ≡ suc (length ss)) × IsReady spi size t'
      placed k (ok u, (b, t')) back kept ready =
          let (back', rest, same, ready') = k t' ready in (back', (kept, rest), ap suc same, ready')
      placed k (err e, (b, t')) back kept ready = (tt, (kept, v.1), refl, ready)
      placed k (panic, (b, t')) back kept ready = absurd back
      placed k (out_of_fuel, (b, t')) back kept ready = absurd back

  module _ (out : OutputPin) (n : ℕ) where
    drive-Safe :
        (set : out.Pin → Bool × out.Pin) → Safe (LockedReady spi out size n) (drive spi out set)
    drive-Safe set = record {
      at = λ l h. (
        done (set l.device.rst).0,
        record { bus = h.bus; rings = h.rings; count = h.count; mark = h.mark },
      );
    }
      where
        done : (b : Bool) → Returned (if b then ok (tt {0}) else err (other pin_error))
        done true = tt
        done false = tt

    tear_down-Safe : Safe (LockedReady spi out size n) (tear_down spi out)
    tear_down-Safe = record {
      at = λ l h. (
        tt,
        record {
          bus = (abort-IsIdle spi size l.device.transport h.bus).1;
          rings = h.rings;
          count = h.count;
          mark = clear_bulk-Marked size n l.bulk.cell l.bulk.busy h.mark;
        },
      );
    }

    on_sockets-Safe : Safe (LockedReady spi out size n) (on_sockets spi out)
    on_sockets-Safe = record {
      at = λ l h.
          let (back, rings, same, bus) =
            reset_sockets-AllValid l.sockets l.device.transport h.rings h.bus in
          (back, record { bus = bus; rings = rings; count = same ∙ h.count; mark = h.mark });
    }

    pub reset-Safe : Safe (ChipReady spi out size n) (reset spi out)
    unfolding reset reset_locked
    reset-Safe = Safe-with_device spi out size n _ (
        Safe-bind _ _ tear_down-Safe (λ _. Safe-bind _ _ (drive-Safe out.set_low) (λ _.
          Safe-bind _ _ (Safe-on_transport spi out size n _ delay-Safe) (λ _.
            Safe-bind _ _ (drive-Safe out.set_high) (λ _.
              Safe-bind _ _
                (Safe-on_transport spi out size n _ (wait_for_chip-Safe max_reset_wait_iterations))
                (λ _. Safe-bind _ _ (Safe-on_transport spi out size n _ check_version-Safe) (λ _.
                  Safe-bind _ _ on_sockets-Safe
                    (λ _. Safe-on_transport spi out size n _ enable_chip-Safe))))))))
