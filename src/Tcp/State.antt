-- ===== src/Tcp/State.antt =====
-- wiznet-rs/src/tcp_socket.rs: the state of a TCP socket, what reads and changes it without the
-- chip, and the setting in which the handlers run.
use wiznet_rs.Prelude.{ℕ, ◌+◌, ◌%◌, ◌^◌, Bool, true, false, Option, none, some}
use wiznet_rs.Exec.{unexpected_response, Error, other, ok, Exec, raise, ◌>>◌}
use wiznet_rs.Spi.{SpiDmaDevice}
use wiznet_rs.Transceiver.Block.{BlockAddress}
use wiznet_rs.Registers.Codes.{timeout_flag, SocketCommand, close}
use wiznet_rs.Registers.Access.{clear_interrupts, send_sock_command}
use wiznet_rs.Tick.{SocketStatus, Tick, on_trans}

pub data TcpMode : Type 0 where
  connect_to : (dst_addr dst_port src_port : ℕ) → TcpMode
  listen_on : (src_port : ℕ) → TcpMode

pub record TcpSocketState : Type 0 where
  pub mode : TcpMode
  pub status : SocketStatus
  pub pending_error : Option Error
  pub close_requested : Bool

abbrev fresh : TcpMode → TcpSocketState
fresh mode = record {
  mode = mode;
  status = SocketStatus.init;
  pending_error = none;
  close_requested = false;
}

-- `TcpSocketState::connect` and `TcpSocketState::listen`
unfoldable pub new_connect : (addr port src_port : ℕ) → TcpSocketState
new_connect addr port src_port = fresh (connect_to addr port src_port)

unfoldable pub new_listen : (port : ℕ) → TcpSocketState
new_listen port = fresh (listen_on port)

-- `status()`, what the handle reports
unfoldable pub reported_status : TcpSocketState → SocketStatus
reported_status t = elim t.pending_error [ some e ↦ SocketStatus.error | none ↦ t.status ]

unfoldable pub rearm : TcpSocketState → TcpSocketState
rearm t = record t { status = SocketStatus.init; pending_error = none; close_requested = false }

unfoldable pub request_close : TcpSocketState → TcpSocketState
request_close t = record t { close_requested = true }

unfoldable pub is_closed_status : SocketStatus → Bool
is_closed_status SocketStatus.closed = true
is_closed_status SocketStatus.error = true
is_closed_status SocketStatus.timeout = true
is_closed_status _ = false

unfoldable pub is_closed : TcpSocketState → Bool
unfolding is_closed_status
is_closed t = is_closed_status t.status

abbrev pub source_port : TcpMode → ℕ
source_port (connect_to dst_addr dst_port src_port) = src_port
source_port (listen_on src_port) = src_port

-- `wrapping_add` on the chip's 16-bit pointers
abbrev pub u16_add : ℕ → ℕ → ℕ
u16_add a b = (a + b) % 2 ^ 16

module _ (spi : SpiDmaDevice) where
  abbrev pub TcpTick : Type 0
  TcpTick = Tick spi TcpSocketState

  abbrev pub Run : Type 0 → Type 0
  Run A = Exec TcpTick A

  abbrev pub set_status : SocketStatus → Run (Unit {0})
  set_status status s = (ok tt, record s { proto = record s.proto { status = status } })

  module _ (block : BlockAddress) where
    -- `send_sock_command(…)?; self.status = …`
    abbrev pub command : SocketCommand → SocketStatus → Run (Unit {0})
    command c status = on_trans (send_sock_command spi block c) >> set_status status

    abbrev pub unexpected {ℓ} : {A : Type ℓ} → Exec TcpTick A
    unexpected =
        command close SocketStatus.closing_due_to_error >> raise (other unexpected_response)

    -- A TIMEOUT interrupt: acknowledged, and the socket closed on account of it.
    abbrev pub time_out : Run (Unit {0})
    time_out = do
      on_trans (clear_interrupts spi block timeout_flag)
      command close SocketStatus.closing_due_to_timeout
