-- ===== src/Chip/Whole/Finish.antt =====
-- wiznet-rs/src/lib.rs: the completion of a bulk transfer on the sockets.
use wiznet_rs.Prelude.{
  ℕ, zero, suc, ◌+◌, ◌<◌, ◌%◌, ◌^◌, ◌≡◌, refl, ap, List, [], ◌∷◌, arith, length,
}
use wiznet_rs.Exec.{Returned}
use wiznet_rs.Safe.{Safe, Safe-bind}
use wiznet_rs.Spi.{SpiDmaDevice, KeepsBuffers}
use wiznet_rs.Transceiver.Block.{BlockAddress}
use wiznet_rs.Transceiver.Execute.{Transceiver}
use wiznet_rs.Transceiver.Ready.{IsReady, Both}
use wiznet_rs.Transceiver.Finish.{finish_read-Safe, finish_write-Safe}
use wiznet_rs.Ring
use wiznet_rs.Ring.{SpscRing, wrapping_add}
use wiznet_rs.Ring.Bounds.{IsValid}
use wiznet_rs.Ring.Write.{write_lem}
use wiznet_rs.Ring.Frames.{commit_frame-IsValid}
use wiznet_rs.Registers.Codes.{SocketCommand}
use wiznet_rs.Registers.Ready.{set_tx_write_pointer-Safe, send_sock_command-Safe}
use wiznet_rs.Tick.{BulkKind, SocketRings}
use wiznet_rs.Tick.Fits.{LenFits}
use wiznet_rs.Backend.{BackendState, free, tcp, udp, Socket}
use wiznet_rs.Chip.State.{BulkOp}
use wiznet_rs.Chip.Service.{
  take_payload, datagram_header, on_ring, finish_kind, finish_bulk, finish_at,
}
use wiznet_rs.Chip.Deliver.{Safe-on_bus, commit_rx-Safe}
use wiznet_rs.Chip.Round.{RingsValid, InOrder, AllValid}

module _ (spi : SpiDmaDevice) (keeps : KeepsBuffers spi) (size : ℕ) where
  module _ (J : SpscRing → Type 0)
      (writes : (bytes : List ℕ) (r : SpscRing) → J r → J (take_payload spi bytes r))
      (commits : (r : SpscRing) → J r → J (Ring.commit_frame r)) where
    Safe-on_ring :
        (f : SpscRing → SpscRing)
        → ((r : SpscRing) → J r → J (f r))
        → Safe (Both spi size J) (on_ring spi f)
    Safe-on_ring f k = record { at = λ (t, rx) (h, v). (tt, (h, k rx v)) }

    -- The completion returns, and what a write and a count of a frame keep of the ring it keeps.
    finish_kind-Safe :
        (kind : BulkKind) (block : BlockAddress) (len end : ℕ)
        → LenFits size len
        → Safe (Both spi size J) (finish_kind spi kind block len end)
    unfolding finish_kind
    finish_kind-Safe BulkKind.receive block len end fits =
        Safe-bind _ _ (finish_read-Safe spi size J len (take_payload spi) writes fits)
          (λ _. commit_rx-Safe spi keeps size block J end)
    finish_kind-Safe (BulkKind.receive_datagram src_ip src_port) block len end fits =
        Safe-bind _ _ (Safe-on_ring _ (writes (datagram_header spi len src_ip src_port))) (λ _.
          Safe-bind _ _ (finish_read-Safe spi size J len (take_payload spi) writes fits) (λ _.
            Safe-bind _ _ (Safe-on_ring _ commits)
              (λ _. commit_rx-Safe spi keeps size block J end)))
    finish_kind-Safe BulkKind.transmit block len end fits =
        Safe-bind _ _ (Safe-on_bus spi keeps size block J _ (finish_write-Safe spi size)) (λ _.
          Safe-bind _ _
            (Safe-on_bus spi keeps size block J _
              (set_tx_write_pointer-Safe spi keeps size block end))
            (λ _.
              Safe-on_bus spi keeps size block J _
                (send_sock_command-Safe spi keeps size block SocketCommand.send)))

  used-Finished :
      (op : BulkOp) (t : Transceiver spi) (rings : SocketRings)
      → LenFits size op.len
      → RingsValid rings
      → IsReady spi size t
      → let (r, (t', rx)) = finish_bulk spi op (t, rings.rx) in
        Returned r × RingsValid (record rings { rx = rx }) × IsReady spi size t'
  unfolding finish_bulk
  used-Finished op t rings fits v h =
      let (back, (bus, valid)) =
        (finish_kind-Safe IsValid (λ bytes r k. (write_lem r k bytes).2) commit_frame-IsValid
            op.kind op.block op.len ((op.pointer + op.len % 2 ^ 16) % 2 ^ 16) fits).at
          (t, rings.rx) (h, v.0) in
      (back, (valid, v.1), bus)

  finished :
      (st : BackendState) (op : BulkOp) (t : Transceiver spi) (rings : SocketRings)
      → LenFits size op.len
      → InOrder st rings
      → IsReady spi size t
      → let (r, (t', rx)) = finish_bulk spi op (t, rings.rx) in
        Returned r × InOrder st (record rings { rx = rx }) × IsReady spi size t'
  unfolding finish_bulk
  finished free op t rings fits v h =
      let (back, (bus, none)) =
        (finish_kind-Safe (λ r. Unit {0}) (λ bytes r k. tt) (λ r k. tt) op.kind op.block op.len
            ((op.pointer + op.len % 2 ^ 16) % 2 ^ 16) fits).at
          (t, rings.rx) (h, tt) in
      (back, tt, bus)
  finished (tcp p) op t rings fits v h = used-Finished op t rings fits v h
  finished (udp p) op t rings fits v h = used-Finished op t rings fits v h

  -- The completion finds its socket and returns, and all rings stay valid.
  pub finish_at-AllValid :
      (i : ℕ) (op : BulkOp) (ss : List Socket) (t : Transceiver spi)
      → i < length ss
      → LenFits size op.len
      → AllValid ss
      → IsReady spi size t
      → let (r, (ss', t')) = finish_at spi i op ss t in
        Returned r × AllValid ss' × (length ss' ≡ length ss) × IsReady spi size t'
  unfolding finish_at
  finish_at-AllValid i op [] t less fits v h = absurd (omega (arith, less))
  finish_at-AllValid zero op (s ∷ ss) t less fits v h =
      let (back, kept, bus) = finished s.backend.cell.state op t s.rings fits v.0 h in
      (back, (kept, v.1), refl, bus)
  finish_at-AllValid (suc i) op (s ∷ ss) t less fits v h =
      let (back, rest, same, bus) = finish_at-AllValid i op ss t (omega (arith, less)) fits v.1 h in
      (back, (v.0, rest), ap suc same, bus)
