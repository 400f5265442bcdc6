-- ===== src/Udp/Run.antt =====
-- wiznet-rs/src/udp_socket.rs: opening and closing, and `run`, one tick of the state machine.
use wiznet_rs.Prelude.{false, some, if◌then◌else◌}
use wiznet_rs.Exec.{
  would_block, other, Result, ok, err, panic, out_of_fuel, pure, gets, ◌>>=◌, ◌>>◌,
}
use wiznet_rs.Spi.{SpiDmaDevice}
use wiznet_rs.Transceiver.Block.{BlockAddress}
use wiznet_rs.Registers.Codes.{open_socket, close, SocketStatusRegister, udp, udp4}
use wiznet_rs.Registers.Access.{init_socket, set_src_port, is_command_pending, read_status}
use wiznet_rs.Tick.{SocketStatus, BulkAction, on_trans}
use wiznet_rs.Udp.State.{UdpTick, Run, set_status, command, unexpected}
use wiznet_rs.Udp.Transfer.{handle_established}

module _ (spi : SpiDmaDevice) (block : BlockAddress) where
  -- `handle_close` on the status that the close finds
  unfoldable pub close_from : SocketStatus → Run spi (Unit {0})
  close_from SocketStatus.closed = pure tt
  close_from SocketStatus.error = pure tt
  close_from SocketStatus.timeout = pure tt
  close_from SocketStatus.closing_due_to_error = pure tt
  close_from SocketStatus.closing_due_to_timeout = pure tt
  close_from SocketStatus.closing = pure tt
  close_from _ = command spi block close SocketStatus.closing

  unfoldable pub handle_close : Run spi (Unit {0})
  unfolding close_from
  handle_close s =
      close_from s.proto.status (record s { proto = record s.proto { close_requested = false } })

  unfoldable pub handle_init : Run spi (Unit {0})
  handle_init = do
    on_trans (init_socket spi block udp4)
    port ← gets (λ s. s.proto.src_port)
    on_trans (set_src_port spi block port)
    command spi block open_socket SocketStatus.opening

  unfoldable pub opening_on : SocketStatusRegister → Run spi (Unit {0})
  opening_on udp = set_status spi SocketStatus.established
  opening_on SocketStatusRegister.closed = pure tt
  opening_on _ = unexpected spi block

  unfoldable pub handle_opening : Run spi (Unit {0})
  unfolding opening_on
  handle_opening = do
    waiting ← on_trans (is_command_pending spi block)
    if waiting then pure tt else do register ← on_trans (read_status spi block); opening_on register

  -- where a close that the chip has finished leaves the socket; the other states panic
  unfoldable pub closed_from : SocketStatus → Run spi (Unit {0})
  closed_from SocketStatus.closing_due_to_error = set_status spi SocketStatus.error
  closed_from SocketStatus.closing_due_to_timeout = set_status spi SocketStatus.timeout
  closed_from SocketStatus.closing = set_status spi SocketStatus.closed
  closed_from _ = λ s. (panic, s)

  abbrev pub closing_on : SocketStatusRegister → Run spi (Unit {0})
  closing_on SocketStatusRegister.closed s = closed_from s.proto.status s
  closing_on _ s = (ok tt, s)

  unfoldable pub handle_closing : Run spi (Unit {0})
  unfolding closed_from
  handle_closing = do register ← on_trans (read_status spi block); closing_on register

  -- `.map(|()| BulkAction::None)`
  abbrev pub no_bulk : Run spi (Unit {0}) → Run spi BulkAction
  no_bulk m = m >> pure BulkAction.none

  unfoldable pub dispatch : SocketStatus → Run spi BulkAction
  unfolding handle_init handle_opening handle_established handle_closing
  dispatch SocketStatus.init = no_bulk handle_init
  dispatch SocketStatus.opening = no_bulk handle_opening
  dispatch SocketStatus.established = handle_established spi block
  dispatch SocketStatus.closing_due_to_error = no_bulk handle_closing
  dispatch SocketStatus.closing_due_to_timeout = no_bulk handle_closing
  dispatch SocketStatus.closing = no_bulk handle_closing
  dispatch SocketStatus.connecting = pure BulkAction.none
  dispatch SocketStatus.listening = pure BulkAction.none
  dispatch SocketStatus.timeout = pure BulkAction.none
  dispatch SocketStatus.closed = pure BulkAction.none
  dispatch SocketStatus.error = pure BulkAction.none

  -- An error other than `WouldBlock` is kept for `status` and swallowed.
  unfoldable pub store_error : Result BulkAction × UdpTick spi → Result BulkAction × UdpTick spi
  store_error (ok action, s) = (ok action, s)
  store_error (err would_block, s) = (err would_block, s)
  store_error (err (other e), s) =
      (ok BulkAction.none, record s { proto = record s.proto { pending_error = some (other e) } })
  store_error (panic, s) = (panic, s)
  store_error (out_of_fuel, s) = (out_of_fuel, s)

  unfoldable pub run : Run spi BulkAction
  unfolding handle_close dispatch store_error
  run s =
      store_error
        (if s.proto.close_requested then no_bulk handle_close s else dispatch s.proto.status s)
