-- ===== src/Udp/State.antt =====
-- wiznet-rs/src/udp_socket.rs: the state of a UDP socket, what reads and changes it without the
-- chip, and the setting in which the handlers run.
use wiznet_rs.Prelude.{ℕ, Bool, true, false, Option, none, some}
use wiznet_rs.Exec.{unexpected_response, Error, other, ok, Exec, raise, ◌>>◌}
use wiznet_rs.Spi.{SpiDmaDevice}
use wiznet_rs.Transceiver.Block.{BlockAddress}
use wiznet_rs.Registers.Codes.{SocketCommand, close}
use wiznet_rs.Registers.Access.{send_sock_command}
use wiznet_rs.Tick.{SocketStatus, Tick, on_trans}

pub record UdpSocketState : Type 0 where
  pub src_port : ℕ
  pub status : SocketStatus
  pub pending_error : Option Error
  pub close_requested : Bool

unfoldable pub bind : (src_port : ℕ) → UdpSocketState
bind src_port = record {
  src_port = src_port;
  status = SocketStatus.init;
  pending_error = none;
  close_requested = false;
}

-- `status()`, what the handle reports
unfoldable pub reported_status : UdpSocketState → SocketStatus
reported_status u = elim u.pending_error [ some e ↦ SocketStatus.error | none ↦ u.status ]

unfoldable pub rearm : UdpSocketState → UdpSocketState
rearm u = record u { status = SocketStatus.init; pending_error = none; close_requested = false }

unfoldable pub request_close : UdpSocketState → UdpSocketState
request_close u = record u { close_requested = true }

unfoldable pub is_closed_status : SocketStatus → Bool
is_closed_status SocketStatus.closed = true
is_closed_status SocketStatus.error = true
is_closed_status SocketStatus.timeout = true
is_closed_status _ = false

unfoldable pub is_closed : UdpSocketState → Bool
unfolding is_closed_status
is_closed u = is_closed_status u.status

module _ (spi : SpiDmaDevice) where
  abbrev pub UdpTick : Type 0
  UdpTick = Tick spi UdpSocketState

  abbrev pub Run : Type 0 → Type 0
  Run A = Exec UdpTick A

  abbrev pub set_status : SocketStatus → Run (Unit {0})
  set_status status s = (ok tt, record s { proto = record s.proto { status = status } })

  module _ (block : BlockAddress) where
    -- `send_sock_command(…)?; self.status = …`
    abbrev pub command : SocketCommand → SocketStatus → Run (Unit {0})
    command c status = on_trans (send_sock_command spi block c) >> set_status status

    abbrev pub unexpected {ℓ} : {A : Type ℓ} → Exec UdpTick A
    unexpected =
        command close SocketStatus.closing_due_to_error >> raise (other unexpected_response)
