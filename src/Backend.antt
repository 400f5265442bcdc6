-- ===== src/Backend.antt =====
-- wiznet-rs/src/socket.rs: one hardware socket's slot, which holds a protocol's state machine.
pub mod Sound
pub mod Fits
use wiznet_rs.Prelude.{Bool, true, false, ◌&&◌, if◌then◌else◌, Option, none, some}
use wiznet_rs.Exec.{Result, ok, Exec, ◌>>◌}
use wiznet_rs.Cell.{AtomicCell}
use wiznet_rs.Spi.{SpiDmaDevice}
use wiznet_rs.Transceiver.Block.{BlockAddress}
use wiznet_rs.Registers.Codes.{SocketProtocolMode}
use wiznet_rs.Registers.Access.{init_socket}
use wiznet_rs.Tick.{BulkAction, SocketRings, Tick, on_trans}
use wiznet_rs.Tcp.State
use wiznet_rs.Tcp.State.{TcpSocketState}
use wiznet_rs.Tcp.Run as TcpRun
use wiznet_rs.Udp.State as UdpState
use wiznet_rs.Udp.State.{UdpSocketState}
use wiznet_rs.Udp.Run as UdpRun

pub data BackendState : Type 0 where
  free : BackendState
  tcp : TcpSocketState → BackendState
  udp : UdpSocketState → BackendState

pub record SocketBackend : Type 0 where
  pub block : BlockAddress
  pub state : BackendState
  pub release_requested : Bool

pub record Socket : Type 0 where
  pub backend : AtomicCell SocketBackend
  pub rings : SocketRings

unfoldable pub new : BlockAddress → SocketBackend
new block = record { block = block; state = free; release_requested = false }

unfoldable pub is_free_state : BackendState → Bool
is_free_state free = true
is_free_state _ = false

unfoldable pub is_free : SocketBackend → Bool
unfolding is_free_state
is_free b = is_free_state b.state

-- `claim_tcp` and `claim_udp`; the flag is their result.
unfoldable pub claim_tcp : TcpSocketState → SocketBackend → Bool × SocketBackend
unfolding is_free
claim_tcp t b =
    if is_free b then (true, record b { state = tcp t; release_requested = false }) else (false, b)

unfoldable pub claim_udp : UdpSocketState → SocketBackend → Bool × SocketBackend
unfolding is_free
claim_udp u b =
    if is_free b then (true, record b { state = udp u; release_requested = false }) else (false, b)

unfoldable pub as_tcp : BackendState → Option TcpSocketState
as_tcp (tcp t) = some t
as_tcp _ = none

unfoldable pub as_udp : BackendState → Option UdpSocketState
as_udp (udp u) = some u
as_udp _ = none

unfoldable pub close_state : BackendState → BackendState
unfolding State.request_close UdpState.request_close
close_state free = free
close_state (tcp t) = tcp (State.request_close t)
close_state (udp u) = udp (UdpState.request_close u)

unfoldable pub request_release : SocketBackend → SocketBackend
unfolding close_state
request_release b = record b { release_requested = true; state = close_state b.state }

unfoldable pub is_terminal : BackendState → Bool
unfolding State.is_closed UdpState.is_closed
is_terminal free = true
is_terminal (tcp t) = State.is_closed t
is_terminal (udp u) = UdpState.is_closed u

unfoldable pub rearm_state : BackendState → BackendState
unfolding State.rearm UdpState.rearm
rearm_state free = free
rearm_state (tcp t) = tcp (State.rearm t)
rearm_state (udp u) = udp (UdpState.rearm u)

-- the slot given back, if a release was requested and the teardown is over
unfoldable pub settle_release : SocketBackend → SocketBackend
unfolding is_terminal
settle_release b =
    if b.release_requested && is_terminal b.state
    then record b { state = free; release_requested = false }
    else b

module _ (spi : SpiDmaDevice) where
  abbrev pub BackendTick : Type 0
  BackendTick = Tick spi SocketBackend

  -- A protocol's tick on the slot that holds its state.
  abbrev hold :
      {P : Type 0}
      → (P → BackendState)
      → SocketBackend
      → Result BulkAction × Tick spi P
      → Result BulkAction × BackendTick
  hold wrap b (r, s) =
      (r, record { trans = s.trans; rings = s.rings; proto = record b { state = wrap s.proto } })

  abbrev enter : {P : Type 0} → P → BackendTick → Tick spi P
  enter p s = record { trans = s.trans; rings = s.rings; proto = p }

  unfoldable pub run_state : BackendState → Exec BackendTick BulkAction
  run_state free s = (ok BulkAction.none, s)
  run_state (tcp t) s = hold tcp s.proto (TcpRun.run spi s.proto.block (enter t s))
  run_state (udp u) s = hold udp s.proto (UdpRun.run spi s.proto.block (enter u s))

  unfoldable pub run : Exec BackendTick BulkAction
  unfolding run_state settle_release
  run s =
      let (r, s') = run_state s.proto.state s in (r, record s' { proto = settle_release s'.proto })

  -- what `reset` leaves once the chip's socket is closed
  unfoldable pub reset_slot : SocketBackend → SocketBackend
  unfolding rearm_state
  reset_slot b =
      if b.release_requested
      then record b { state = free; release_requested = false }
      else record b { state = rearm_state b.state }

  unfoldable pub reset : Exec BackendTick (Unit {0})
  unfolding reset_slot
  reset s =
      (on_trans (init_socket spi s.proto.block SocketProtocolMode.closed) >> λ u.
      (ok tt, record u { proto = reset_slot u.proto }))
        s
