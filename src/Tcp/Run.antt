-- ===== src/Tcp/Run.antt =====
-- wiznet-rs/src/tcp_socket.rs: `handle_closing`, and `run`, one tick of the state machine.
use wiznet_rs.Prelude.{some, if◌then◌else◌}
use wiznet_rs.Exec.{would_block, other, Result, ok, err, panic, out_of_fuel, pure, ◌>>=◌, ◌>>◌}
use wiznet_rs.Spi.{SpiDmaDevice}
use wiznet_rs.Transceiver.Block.{BlockAddress}
use wiznet_rs.Registers.Codes.{SocketStatusRegister}
use wiznet_rs.Registers.Access.{read_status}
use wiznet_rs.Tick.{SocketStatus, BulkAction, on_trans}
use wiznet_rs.Tcp.State.{TcpTick, Run, set_status}
use wiznet_rs.Tcp.Close.{handle_close}
use wiznet_rs.Tcp.Open.{handle_init, handle_opening, handle_connecting, handle_listening}
use wiznet_rs.Tcp.Transfer.{handle_established}

module _ (spi : SpiDmaDevice) (block : BlockAddress) where
  -- where a close that the chip has finished leaves the socket; the other states panic
  unfoldable pub closed_from : SocketStatus → Run spi (Unit {0})
  closed_from SocketStatus.closing_due_to_error = set_status spi SocketStatus.error
  closed_from SocketStatus.closing_due_to_timeout = set_status spi SocketStatus.timeout
  closed_from SocketStatus.closing = set_status spi SocketStatus.closed
  closed_from _ = λ s. (panic, s)

  abbrev pub closing_on : SocketStatusRegister → Run spi (Unit {0})
  closing_on SocketStatusRegister.closed s = closed_from s.proto.status s
  closing_on _ s = (ok tt, s)

  unfoldable pub handle_closing : Run spi (Unit {0})
  unfolding closed_from
  handle_closing = do register ← on_trans (read_status spi block); closing_on register

  -- `.map(|()| BulkAction::None)`
  abbrev pub no_bulk : Run spi (Unit {0}) → Run spi BulkAction
  no_bulk m = m >> pure BulkAction.none

  unfoldable pub dispatch : SocketStatus → Run spi BulkAction
  unfolding handle_init handle_opening handle_connecting handle_established handle_listening
      handle_closing
  dispatch SocketStatus.init = no_bulk (handle_init spi block)
  dispatch SocketStatus.opening = no_bulk (handle_opening spi block)
  dispatch SocketStatus.connecting = no_bulk (handle_connecting spi block)
  dispatch SocketStatus.established = handle_established spi block
  dispatch SocketStatus.listening = no_bulk (handle_listening spi block)
  dispatch SocketStatus.closing_due_to_error = no_bulk handle_closing
  dispatch SocketStatus.closing_due_to_timeout = no_bulk handle_closing
  dispatch SocketStatus.closing = no_bulk handle_closing
  dispatch SocketStatus.timeout = pure BulkAction.none
  dispatch SocketStatus.closed = pure BulkAction.none
  dispatch SocketStatus.error = pure BulkAction.none

  -- An error other than `WouldBlock` is kept for `status` and swallowed.
  unfoldable pub store_error : Result BulkAction × TcpTick spi → Result BulkAction × TcpTick spi
  store_error (ok action, s) = (ok action, s)
  store_error (err would_block, s) = (err would_block, s)
  store_error (err (other e), s) =
      (ok BulkAction.none, record s { proto = record s.proto { pending_error = some (other e) } })
  store_error (panic, s) = (panic, s)
  store_error (out_of_fuel, s) = (out_of_fuel, s)

  unfoldable pub run : Run spi BulkAction
  unfolding handle_close dispatch store_error
  run s = store_error (
      if s.proto.close_requested
      then no_bulk (handle_close spi block) s
      else dispatch s.proto.status s)
