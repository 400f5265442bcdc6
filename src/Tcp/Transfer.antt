-- ===== src/Tcp/Transfer.antt =====
-- wiznet-rs/src/tcp_socket.rs: the data path of an established connection.
use wiznet_rs.Prelude.{min, not, ◌&&◌, ◌==◌, if◌then◌else◌}
use wiznet_rs.Exec.{pure, gets, ◌>>=◌, ◌>>◌}
use wiznet_rs.Spi.{SpiDmaDevice}
use wiznet_rs.Transceiver.Block.{BlockAddress}
use wiznet_rs.Ring
use wiznet_rs.Registers.Codes.{
  discon_flag, disconnect, SocketStatusRegister, established, close_wait,
}
use wiznet_rs.Registers.Access.{
  get_interrupts, clear_interrupts, get_rx_received_size, get_rx_read_pointer, start_read_rx_buffer,
  get_tx_free_size, get_tx_write_pointer, start_write_tx_buffer, read_status,
}
use wiznet_rs.Tick.{SocketStatus, BulkKind, BulkAction, started, on_trans, on_trans_tx, drain_into}
use wiznet_rs.Tcp.State.{Run, set_status, command, unexpected, time_out}

module _ (spi : SpiDmaDevice) (block : BlockAddress) where
  unfoldable pub receive : Run spi BulkAction
  receive = do
    available ← on_trans (get_rx_received_size spi block)
    if available == 0 then pure BulkAction.none else do
      to_read ← gets (λ s. min available (Ring.free s.rings.rx))
      if to_read == 0 then pure BulkAction.none else do
        pointer ← on_trans (get_rx_read_pointer spi block)
        on_trans (start_read_rx_buffer spi block pointer to_read)
        pure (started BulkKind.receive pointer to_read)

  unfoldable pub transmit : Run spi BulkAction
  transmit = do
    waiting ← gets (λ s. Ring.len s.rings.tx)
    if waiting == 0 then pure BulkAction.none else do
      free ← on_trans (get_tx_free_size spi block)
      let to_send = min waiting free
      if to_send == 0 then pure BulkAction.none else do
        pointer ← on_trans (get_tx_write_pointer spi block)
        on_trans_tx (start_write_tx_buffer spi block pointer to_send drain_into)
        pure (started BulkKind.transmit pointer to_send)

  -- the receive that comes first, and `next` if it started nothing
  abbrev pub unless_started : Run spi BulkAction → BulkAction → Run spi BulkAction
  unless_started next (started kind pointer len) = pure (started kind pointer len)
  unless_started next BulkAction.none = next

  -- The close of our side after the peer's, once every byte is off the chip and the rings.
  unfoldable pub finish_close_wait : Run spi BulkAction
  finish_close_wait = do
    drained ← gets (λ s. Ring.len s.rings.tx == 0 && Ring.len s.rings.rx == 0)
    if not drained then pure BulkAction.none else do
      left ← on_trans (get_rx_received_size spi block)
      if not (left == 0)
          then pure BulkAction.none
          else do command spi block disconnect SocketStatus.closing; pure BulkAction.none

  unfoldable pub established_on : SocketStatusRegister → Run spi BulkAction
  unfolding receive transmit finish_close_wait
  established_on established = do action ← receive; unless_started transmit action
  established_on close_wait = do
    action ← receive
    unless_started (do action' ← transmit; unless_started finish_close_wait action') action
  established_on SocketStatusRegister.closed = do
    set_status spi SocketStatus.closed
    pure BulkAction.none
  established_on _ = unexpected spi block

  unfoldable pub handle_established : Run spi BulkAction
  unfolding established_on
  handle_established = do
    interrupts ← on_trans (get_interrupts spi block)
    if interrupts.timeout then (time_out spi block >> pure BulkAction.none) else do
      if interrupts.discon then on_trans (clear_interrupts spi block discon_flag) else pure tt
      register ← on_trans (read_status spi block)
      established_on register
