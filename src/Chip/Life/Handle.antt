-- ===== src/Chip/Life/Handle.antt =====
-- wiznet-rs/src/tcp_socket.rs and wiznet-rs/src/udp_socket.rs: the calls of a handle, on its slot.
use wiznet_rs.Prelude.{ℕ, Bool, true, false, List}
use wiznet_rs.Ring.{SpscRing}
use wiznet_rs.Ring.Read.{read_lem}
use wiznet_rs.Ring.Write.{write_lem}
use wiznet_rs.Tick
use wiznet_rs.Tick.{SocketRings}
use wiznet_rs.Udp.Frame.{SocketAddr}
use wiznet_rs.Udp.Handle.{recv_from, send_to}
use wiznet_rs.Backend
use wiznet_rs.Backend.{BackendState, free, tcp, udp, SocketBackend, Socket}
use wiznet_rs.Transceiver.Block.{BlockAddress}
use wiznet_rs.Chip.Open.{
  tcp_read, tcp_write, tcp_close, udp_close, tcp_reconnect, udp_reconnect, drop_handle,
}
use wiznet_rs.Ring.Frames.{clear-IsValid}
use wiznet_rs.Chip.Life.Rings.{recv_from-IsValid, send_to-IsValid}
use wiznet_rs.Chip.Round.{RingsValid, InOrder}

abbrev on_rx : SpscRing → Socket → Socket
on_rx rx s = record s { rings = record s.rings { rx = rx } }

abbrev on_tx : SpscRing → Socket → Socket
on_tx tx s = record s { rings = record s.rings { tx = tx } }

-- What one call of a handle makes of its slot.
pub data HandleStep (s : Socket) : Socket → Type 0 where
  read : (dst : List ℕ) → HandleStep s (tcp_read dst s).1
  write : (src : List ℕ) → HandleStep s (tcp_write src s).1
  received : (dst : List ℕ) → HandleStep s (on_rx (recv_from dst s.rings.rx).1 s)
  sent : (src : List ℕ) (peer : SocketAddr) → HandleStep s (on_tx (send_to src peer s.rings.tx).1 s)
  closed_tcp : HandleStep s (tcp_close s).1
  closed_udp : HandleStep s (udp_close s).1
  reconnected_tcp : HandleStep s (tcp_reconnect s).1
  reconnected_udp : HandleStep s (udp_reconnect s).1
  dropped : HandleStep s (drop_handle s)

-- Rings of a slot that go on as valid if they were.
kept :
    (st : BackendState) (a b : SocketRings)
    → (RingsValid a → RingsValid b)
    → InOrder st a
    → InOrder st b
kept free a b k v = tt
kept (tcp p) a b k v = k v
kept (udp p) a b k v = k v

module _ (block : BlockAddress) (release : Bool) (rings : SocketRings) where
  abbrev slot : BackendState → Bool → Socket
  slot st busy = record {
    backend = record {
      cell = record { block = block; state = st; release_requested = release };
      busy = busy;
    };
    rings = rings;
  }

  abbrev Fine : Socket → Type 0
  Fine s = InOrder s.backend.cell.state s.rings

  cleared : RingsValid rings → RingsValid (Tick.clear rings)
  unfolding Tick.clear
  cleared v = (clear-IsValid rings.rx v.0, clear-IsValid rings.tx v.1)

  tcp_close-Fine :
      (st : BackendState) (busy : Bool) → InOrder st rings → Fine (tcp_close (slot st busy)).1
  unfolding tcp_close Backend.as_tcp
  tcp_close-Fine st true v = v
  tcp_close-Fine free false v = tt
  tcp_close-Fine (tcp p) false v = v
  tcp_close-Fine (udp p) false v = v

  udp_close-Fine :
      (st : BackendState) (busy : Bool) → InOrder st rings → Fine (udp_close (slot st busy)).1
  unfolding udp_close Backend.as_udp
  udp_close-Fine st true v = v
  udp_close-Fine free false v = tt
  udp_close-Fine (tcp p) false v = v
  udp_close-Fine (udp p) false v = v

  tcp_reconnect-Fine :
      (st : BackendState) (busy : Bool) → InOrder st rings → Fine (tcp_reconnect (slot st busy)).1
  unfolding tcp_reconnect Backend.as_tcp
  tcp_reconnect-Fine st true v = v
  tcp_reconnect-Fine free false v = tt
  tcp_reconnect-Fine (tcp p) false v = cleared v
  tcp_reconnect-Fine (udp p) false v = v

  udp_reconnect-Fine :
      (st : BackendState) (busy : Bool) → InOrder st rings → Fine (udp_reconnect (slot st busy)).1
  unfolding udp_reconnect Backend.as_udp
  udp_reconnect-Fine st true v = v
  udp_reconnect-Fine free false v = tt
  udp_reconnect-Fine (tcp p) false v = v
  udp_reconnect-Fine (udp p) false v = cleared v

  drop_handle-Fine :
      (st : BackendState) (busy : Bool) → InOrder st rings → Fine (drop_handle (slot st busy))
  unfolding drop_handle Backend.request_release Backend.close_state
  drop_handle-Fine st true v = v
  drop_handle-Fine free false v = tt
  drop_handle-Fine (tcp p) false v = v
  drop_handle-Fine (udp p) false v = v

-- A call of a handle leaves a slot in order in order.
pub handle-InOrder :
    (s s' : Socket)
    → HandleStep s s'
    → InOrder s.backend.cell.state s.rings
    → InOrder s'.backend.cell.state s'.rings
unfolding tcp_read tcp_write
handle-InOrder s _ (read dst) =
    kept s.backend.cell.state s.rings _ (λ v. ((read_lem s.rings.rx v.0 dst).3, v.1))
handle-InOrder s _ (write src) =
    kept s.backend.cell.state s.rings _ (λ v. (v.0, (write_lem s.rings.tx v.1 src).2))
handle-InOrder s _ (received dst) =
    kept s.backend.cell.state s.rings _ (λ v. (recv_from-IsValid dst s.rings.rx v.0, v.1))
handle-InOrder s _ (sent src peer) =
    kept s.backend.cell.state s.rings _ (λ v. (v.0, send_to-IsValid src peer s.rings.tx v.1))
handle-InOrder s _ closed_tcp =
    tcp_close-Fine s.backend.cell.block s.backend.cell.release_requested s.rings
      s.backend.cell.state s.backend.busy
handle-InOrder s _ closed_udp =
    udp_close-Fine s.backend.cell.block s.backend.cell.release_requested s.rings
      s.backend.cell.state s.backend.busy
handle-InOrder s _ reconnected_tcp =
    tcp_reconnect-Fine s.backend.cell.block s.backend.cell.release_requested s.rings
      s.backend.cell.state s.backend.busy
handle-InOrder s _ reconnected_udp =
    udp_reconnect-Fine s.backend.cell.block s.backend.cell.release_requested s.rings
      s.backend.cell.state s.backend.busy
handle-InOrder s _ dropped =
    drop_handle-Fine s.backend.cell.block s.backend.cell.release_requested s.rings
      s.backend.cell.state s.backend.busy
