-- ===== src/Chip/Open.antt =====
-- wiznet-rs/src/lib.rs: opening a socket; and the handles of wiznet-rs/src/tcp_socket.rs and
-- wiznet-rs/src/udp_socket.rs, each on the slot that it borrows.
use wiznet_rs.Prelude.{ℕ, ◌+◌, Bool, List, [], ◌∷◌, Option, none, some, if◌then◌else◌}
use wiznet_rs.Exec.{would_block, ok, err, Exec}
use wiznet_rs.Spi.{SpiDmaDevice}
use wiznet_rs.Ring
use wiznet_rs.Tick
use wiznet_rs.Tick.{SocketStatus}
use wiznet_rs.Tcp.State
use wiznet_rs.Tcp.State.{TcpSocketState}
use wiznet_rs.Udp.State as UdpState
use wiznet_rs.Udp.State.{UdpSocketState}
use wiznet_rs.Backend.{
  SocketBackend, Socket, tcp, udp, is_free, claim_tcp, claim_udp, as_tcp, as_udp, request_release,
}
use wiznet_rs.Chip.State.{OutputPin, W6100}

-- The claim of a free slot: it gets the buffers and the protocol's state.
unfoldable pub open_slot :
    (SocketBackend → Bool × SocketBackend) → List ℕ → List ℕ → Socket → Socket
unfolding Tick.install
open_slot claim rx tx s = record {
  rings = Tick.install s.rings rx tx;
  backend = record s.backend { cell = (claim s.backend.cell).1 };
}

-- The search of `open_tcp_connect`, `open_tcp_listen` and `open_udp`: the index of the first slot
-- that is free and not locked, from `i` on.
unfoldable pub open_first :
    (SocketBackend → Bool × SocketBackend) → List ℕ → List ℕ → ℕ → Exec (List Socket) ℕ
unfolding open_slot is_free
open_first claim rx tx i [] = (err would_block, [])
open_first claim rx tx i (s ∷ ss) =
    let (r, rest) = open_first claim rx tx (i + 1) ss in
    if s.backend.busy
    then (r, s ∷ rest)
    else if is_free s.backend.cell
    then (ok i, open_slot claim rx tx s ∷ ss)
    else (r, s ∷ rest)

module _ (spi : SpiDmaDevice) (out : OutputPin) where
  abbrev pub on_slots : {A : Type 0} → Exec (List Socket) A → Exec (W6100 spi out) A
  on_slots m w = let (r, ss) = m w.sockets in (r, record w { sockets = ss })

  unfoldable pub open_tcp_connect :
      (addr port src_port : ℕ) → List ℕ → List ℕ → Exec (W6100 spi out) ℕ
  unfolding open_first
  open_tcp_connect addr port src_port rx tx =
      on_slots (open_first (claim_tcp (State.new_connect addr port src_port)) rx tx 0)

  unfoldable pub open_tcp_listen : (port : ℕ) → List ℕ → List ℕ → Exec (W6100 spi out) ℕ
  unfolding open_first
  open_tcp_listen port rx tx = on_slots (open_first (claim_tcp (State.new_listen port)) rx tx 0)

  unfoldable pub open_udp : (src_port : ℕ) → List ℕ → List ℕ → Exec (W6100 spi out) ℕ
  unfolding open_first
  open_udp src_port rx tx = on_slots (open_first (claim_udp (UdpState.bind src_port)) rx tx 0)

-- `TcpSocket::read` and `TcpSocket::write`
unfoldable pub tcp_read : List ℕ → Exec Socket (ℕ × List ℕ)
tcp_read dst s =
    let (n, dst', rx) = Ring.read s.rings.rx dst in
    (ok (n, dst'), record s { rings = record s.rings { rx = rx } })

unfoldable pub tcp_write : List ℕ → Exec Socket ℕ
tcp_write src s =
    let (n, tx) = Ring.write s.rings.tx src in
    (ok n, record s { rings = record s.rings { tx = tx } })

-- `self.socket.backend.lock_mut()?`, and a body that reads or changes the slot
abbrev pub locked : {A : Type 0} → (SocketBackend → A × SocketBackend) → Exec Socket A
locked f s =
    if s.backend.busy
    then (err would_block, s)
    else let (a, b) = f s.backend.cell in
      (ok a, record s { backend = record s.backend { cell = b } })

abbrev tcp_report : Option TcpSocketState → SocketStatus
tcp_report (some t) = State.reported_status t
tcp_report none = SocketStatus.closed

abbrev udp_report : Option UdpSocketState → SocketStatus
udp_report (some u) = UdpState.reported_status u
udp_report none = SocketStatus.closed

unfoldable pub tcp_status : Exec Socket SocketStatus
unfolding as_tcp State.reported_status
tcp_status = locked (λ b. (tcp_report (as_tcp b.state), b))

unfoldable pub udp_status : Exec Socket SocketStatus
unfolding as_udp UdpState.reported_status
udp_status = locked (λ b. (udp_report (as_udp b.state), b))

abbrev pub map_tcp : (TcpSocketState → TcpSocketState) → SocketBackend → SocketBackend
map_tcp f b = elim (as_tcp b.state) [ some t ↦ record b { state = tcp (f t) } | none ↦ b ]

abbrev pub map_udp : (UdpSocketState → UdpSocketState) → SocketBackend → SocketBackend
map_udp f b = elim (as_udp b.state) [ some u ↦ record b { state = udp (f u) } | none ↦ b ]

unfoldable pub tcp_close : Exec Socket (Unit {0})
unfolding as_tcp State.request_close
tcp_close = locked (λ b. (tt, map_tcp State.request_close b))

unfoldable pub udp_close : Exec Socket (Unit {0})
unfolding as_udp UdpState.request_close
udp_close = locked (λ b. (tt, map_udp UdpState.request_close b))

-- `rearm` and, where the slot holds the protocol, the clearing of the rings
unfoldable pub tcp_reconnect : Exec Socket (Unit {0})
unfolding as_tcp State.rearm Tick.clear
tcp_reconnect s =
    if s.backend.busy then (err would_block, s) else elim (as_tcp s.backend.cell.state) [
      | none ↦ (ok tt, s)
      | some t ↦ (
        ok tt,
        record {
          backend = record s.backend { cell = map_tcp State.rearm s.backend.cell };
          rings = Tick.clear s.rings;
        },
      )
    ]

unfoldable pub udp_reconnect : Exec Socket (Unit {0})
unfolding as_udp UdpState.rearm Tick.clear
udp_reconnect s =
    if s.backend.busy then (err would_block, s) else elim (as_udp s.backend.cell.state) [
      | none ↦ (ok tt, s)
      | some u ↦ (
        ok tt,
        record {
          backend = record s.backend { cell = map_udp UdpState.rearm s.backend.cell };
          rings = Tick.clear s.rings;
        },
      )
    ]

-- `Drop` of a handle: nothing if the slot is locked.
unfoldable pub drop_handle : Socket → Socket
unfolding request_release
drop_handle s =
    if s.backend.busy
    then s
    else record s { backend = record s.backend { cell = request_release s.backend.cell } }
