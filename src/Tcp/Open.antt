-- ===== src/Tcp/Open.antt =====
-- wiznet-rs/src/tcp_socket.rs: the handlers that bring a connection up.
use wiznet_rs.Prelude.{if◌then◌else◌}
use wiznet_rs.Exec.{pure, gets, ◌>>=◌, ◌>>◌}
use wiznet_rs.Spi.{SpiDmaDevice}
use wiznet_rs.Transceiver.Block.{BlockAddress}
use wiznet_rs.Registers.Codes.{
  timeout_flag, con_flag, SocketCommand, open_socket, connect, SocketStatusRegister, established,
  close_wait, synsent, synrecv, tcp4,
}
use wiznet_rs.Registers.Access.{
  init_socket, get_interrupts, clear_interrupts, set_src_port, set_dst_port, set_ipv4_dst_addr,
  is_command_pending, read_status,
}
use wiznet_rs.Tick.{SocketStatus, on_trans}
use wiznet_rs.Tcp.State.{
  TcpMode, connect_to, listen_on, source_port, Run, set_status, command, unexpected, time_out,
}

module _ (spi : SpiDmaDevice) (block : BlockAddress) where
  unfoldable pub handle_init : Run spi (Unit {0})
  handle_init = do
    on_trans (init_socket spi block tcp4)
    port ← gets (λ s. source_port s.proto.mode)
    on_trans (set_src_port spi block port)
    command spi block open_socket SocketStatus.opening

  -- `CONNECT` or `LISTEN`, once the chip's socket is in `SOCK_INIT`
  unfoldable pub start_mode : TcpMode → Run spi (Unit {0})
  start_mode (connect_to dst_addr dst_port src_port) = do
    on_trans (set_ipv4_dst_addr spi block dst_addr)
    on_trans (set_dst_port spi block dst_port)
    command spi block connect SocketStatus.connecting
  start_mode (listen_on src_port) = command spi block SocketCommand.listen SocketStatus.listening

  unfoldable pub opening_on : SocketStatusRegister → Run spi (Unit {0})
  unfolding start_mode
  opening_on SocketStatusRegister.init = do mode ← gets (λ s. s.proto.mode); start_mode mode
  opening_on SocketStatusRegister.closed = pure tt
  opening_on _ = unexpected spi block

  unfoldable pub handle_opening : Run spi (Unit {0})
  unfolding opening_on
  handle_opening = do
    waiting ← on_trans (is_command_pending spi block)
    if waiting then pure tt else do register ← on_trans (read_status spi block); opening_on register

  unfoldable pub connecting_on : SocketStatusRegister → Run spi (Unit {0})
  connecting_on established = do
    set_status spi SocketStatus.established
    on_trans (clear_interrupts spi block con_flag)
  connecting_on synsent = pure tt
  connecting_on SocketStatusRegister.init = pure tt
  connecting_on SocketStatusRegister.closed = set_status spi SocketStatus.closed
  connecting_on _ = unexpected spi block

  unfoldable pub handle_connecting : Run spi (Unit {0})
  unfolding connecting_on
  handle_connecting = do
    waiting ← on_trans (is_command_pending spi block)
    if waiting then pure tt else do
      interrupts ← on_trans (get_interrupts spi block)
      if interrupts.timeout
          then time_out spi block
          else do register ← on_trans (read_status spi block); connecting_on register

  unfoldable pub listening_on : SocketStatusRegister → Run spi (Unit {0})
  listening_on SocketStatusRegister.listen = pure tt
  listening_on synrecv = pure tt
  listening_on established = do
    set_status spi SocketStatus.established
    on_trans (clear_interrupts spi block con_flag)
  listening_on close_wait = do
    set_status spi SocketStatus.established
    on_trans (clear_interrupts spi block con_flag)
  listening_on SocketStatusRegister.closed = do
    on_trans (clear_interrupts spi block timeout_flag)
    set_status spi SocketStatus.closed
  listening_on _ = unexpected spi block

  unfoldable pub handle_listening : Run spi (Unit {0})
  unfolding listening_on
  handle_listening = do
    waiting ← on_trans (is_command_pending spi block)
    if waiting
        then pure tt
        else do register ← on_trans (read_status spi block); listening_on register
