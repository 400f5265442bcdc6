-- ===== src/Udp/Edges.antt =====
-- wiznet-rs/src/udp_socket.rs: the state machine of a UDP socket, and the rules by which a handler
-- is checked against it.
use wiznet_rs.Prelude.{ℕ, Bool, true, false}
use wiznet_rs.Safe.{Safe, Safe-bind, Safe-raise}
use wiznet_rs.Spi.{SpiDmaDevice, KeepsBuffers}
use wiznet_rs.Transceiver.Block.{BlockAddress}
use wiznet_rs.Registers.Codes.{SocketCommand}
use wiznet_rs.Registers.Ready.{send_sock_command-Safe}
use wiznet_rs.Tick.{
  SocketStatus, init, opening, established, closing_due_to_error, closing_due_to_timeout, closing,
  timeout, error, closed,
}
use wiznet_rs.Tick.Status.{IsLive}
use wiznet_rs.Tick.Ready.{TickReady, Safe-on_trans}
use wiznet_rs.Udp.State.{UdpSocketState, UdpTick, set_status, command, unexpected}

-- One tick's change of status; the flag is whether a close was asked for.
pub data Edge : Bool → SocketStatus → SocketStatus → Type 0 where
  stay : {q : Bool} {a : SocketStatus} → Edge q a a
  close_requested : {a : SocketStatus} → IsLive a → Edge true a closing
  opened : Edge false init opening
  bound : Edge false opening established
  unexpected_register : Edge false opening closing_due_to_error
  close_done : Edge false closing closed
  error_done : Edge false closing_due_to_error error
  timeout_done : Edge false closing_due_to_timeout timeout

-- The tick began in status `a`, with or without a request to close.
abbrev pub From : Bool → SocketStatus → UdpSocketState → Type 0
From q a proto = Edge q a proto.status

module _ (spi : SpiDmaDevice) (keeps : KeepsBuffers spi) (size : ℕ) (block : BlockAddress)
    (q : Bool) (a : SocketStatus) where
  abbrev pub Inv : UdpTick spi → Type 0
  Inv = TickReady spi size (From q a)

  pub Safe-set_status : (b : SocketStatus) → Edge q a b → Safe Inv (set_status spi b)
  Safe-set_status b e = record {
    at = λ s h.
        (tt, record { bus = h.bus; rx_valid = h.rx_valid; tx_valid = h.tx_valid; proto_ok = e });
  }

  pub Safe-command :
      (c : SocketCommand) (b : SocketStatus) → Edge q a b → Safe Inv (command spi block c b)
  Safe-command c b e =
      Safe-bind _ _ (Safe-on_trans _ (send_sock_command-Safe spi keeps size block c))
        (λ _. Safe-set_status b e)

  pub Safe-unexpected {ℓ} :
      {A : Type ℓ} → Edge q a closing_due_to_error → Safe Inv (unexpected spi block {A = A})
  Safe-unexpected e = Safe-bind _ _ (Safe-command SocketCommand.close _ e) (λ _. Safe-raise _)
