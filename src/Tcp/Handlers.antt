-- ===== src/Tcp/Handlers.antt =====
-- wiznet-rs/src/tcp_socket.rs: the handlers that bring a connection up, against the edges out of
-- their status.
use wiznet_rs.Prelude.{ℕ, false}
use wiznet_rs.Exec.{◌>>◌}
use wiznet_rs.Safe.{Safe, Safe-bind, Safe-pure, Safe-gets, Safe-if}
use wiznet_rs.Spi.{SpiDmaDevice, KeepsBuffers}
use wiznet_rs.Transceiver.Block.{BlockAddress}
use wiznet_rs.Registers.Codes.{SocketCommand, SocketStatusRegister, con_flag, timeout_flag}
use wiznet_rs.Registers.Access.{clear_interrupts}
use wiznet_rs.Registers.Ready.{
  init_socket-Safe, get_interrupts-Safe, clear_interrupts-Safe, set_src_port-Safe,
  set_dst_port-Safe, set_ipv4_dst_addr-Safe, is_command_pending-Safe, read_status-Safe,
}
use wiznet_rs.Tick.{SocketStatus, init, opening, connecting, established, listening, on_trans}
use wiznet_rs.Tick.Ready.{Safe-on_trans}
use wiznet_rs.Tcp.State.{TcpMode, connect_to, listen_on, set_status}
use wiznet_rs.Tcp.Open.{
  handle_init, start_mode, opening_on, handle_opening, connecting_on, handle_connecting,
  listening_on, handle_listening,
}
use wiznet_rs.Tcp.Edges.{
  opening_can_fail, connecting_can_fail, listening_can_fail, Edge, unexpected_register, opened,
  connect_sent, listen_sent, connected, refused, connect_timed_out, accepted, listen_closed, Inv,
  Safe-set_status, Safe-command, Safe-unexpected, Safe-time_out,
}

module _ (spi : SpiDmaDevice) (keeps : KeepsBuffers spi) (size : ℕ) (block : BlockAddress) where
  pub handle_init-Safe : Safe (Inv spi keeps size block false init) (handle_init spi block)
  unfolding handle_init
  handle_init-Safe = Safe-bind _ _ (Safe-on_trans _ (init_socket-Safe spi keeps size block _)) (λ _.
      Safe-bind _ _ (Safe-gets _) (λ port.
        Safe-bind _ _ (Safe-on_trans _ (set_src_port-Safe spi keeps size block port))
          (λ _. Safe-command spi keeps size block _ _ SocketCommand.open_socket _ opened)))

  start_mode-Safe :
      (mode : TcpMode) → Safe (Inv spi keeps size block false opening) (start_mode spi block mode)
  unfolding start_mode
  start_mode-Safe (connect_to dst_addr dst_port src_port) =
      Safe-bind _ _ (Safe-on_trans _ (set_ipv4_dst_addr-Safe spi keeps size block dst_addr)) (λ _.
        Safe-bind _ _ (Safe-on_trans _ (set_dst_port-Safe spi keeps size block dst_port))
          (λ _. Safe-command spi keeps size block _ _ SocketCommand.connect _ connect_sent))
  start_mode-Safe (listen_on src_port) =
      Safe-command spi keeps size block _ _ SocketCommand.listen _ listen_sent

  opening_on-Safe :
      (r : SocketStatusRegister)
      → Safe (Inv spi keeps size block false opening) (opening_on spi block r)
  unfolding opening_on
  opening_on-Safe SocketStatusRegister.init = Safe-bind _ _ (Safe-gets _) start_mode-Safe
  opening_on-Safe SocketStatusRegister.closed = Safe-pure tt
  opening_on-Safe _ =
      Safe-unexpected spi keeps size block _ _ (unexpected_register opening_can_fail)

  pub handle_opening-Safe : Safe (Inv spi keeps size block false opening) (handle_opening spi block)
  unfolding handle_opening
  handle_opening-Safe =
      Safe-bind _ _ (Safe-on_trans _ (is_command_pending-Safe spi keeps size block)) (λ waiting.
        Safe-if waiting _ _ (Safe-pure tt)
          (Safe-bind _ _ (Safe-on_trans _ (read_status-Safe spi keeps size block)) opening_on-Safe))

  -- a connection that came up, from any status that may take this edge
  came_up :
      (a : SocketStatus)
      → Edge false a established
      → Safe
          (Inv spi keeps size block false a)
          (do set_status spi established; on_trans (clear_interrupts spi block con_flag))
  came_up a e =
      Safe-bind _ _ (Safe-set_status spi keeps size block _ _ _ e)
        (λ _. Safe-on_trans _ (clear_interrupts-Safe spi keeps size block con_flag))

  connecting_on-Safe :
      (r : SocketStatusRegister)
      → Safe (Inv spi keeps size block false connecting) (connecting_on spi block r)
  unfolding connecting_on
  connecting_on-Safe SocketStatusRegister.established = came_up _ connected
  connecting_on-Safe SocketStatusRegister.synsent = Safe-pure tt
  connecting_on-Safe SocketStatusRegister.init = Safe-pure tt
  connecting_on-Safe SocketStatusRegister.closed =
      Safe-set_status spi keeps size block _ _ _ refused
  connecting_on-Safe _ =
      Safe-unexpected spi keeps size block _ _ (unexpected_register connecting_can_fail)

  pub handle_connecting-Safe :
      Safe (Inv spi keeps size block false connecting) (handle_connecting spi block)
  unfolding handle_connecting
  handle_connecting-Safe =
      Safe-bind _ _ (Safe-on_trans _ (is_command_pending-Safe spi keeps size block)) (λ waiting.
        Safe-if waiting _ _ (Safe-pure tt) (
          Safe-bind _ _ (Safe-on_trans _ (get_interrupts-Safe spi keeps size block)) (λ interrupts.
            Safe-if interrupts.timeout _ _
              (Safe-time_out spi keeps size block _ _ connect_timed_out)
              (Safe-bind _ _ (Safe-on_trans _ (read_status-Safe spi keeps size block))
                connecting_on-Safe))))

  listening_on-Safe :
      (r : SocketStatusRegister)
      → Safe (Inv spi keeps size block false listening) (listening_on spi block r)
  unfolding listening_on
  listening_on-Safe SocketStatusRegister.listen = Safe-pure tt
  listening_on-Safe SocketStatusRegister.synrecv = Safe-pure tt
  listening_on-Safe SocketStatusRegister.established = came_up _ accepted
  listening_on-Safe SocketStatusRegister.close_wait = came_up _ accepted
  listening_on-Safe SocketStatusRegister.closed =
      Safe-bind _ _ (Safe-on_trans _ (clear_interrupts-Safe spi keeps size block timeout_flag))
        (λ _. Safe-set_status spi keeps size block _ _ _ listen_closed)
  listening_on-Safe _ =
      Safe-unexpected spi keeps size block _ _ (unexpected_register listening_can_fail)

  pub handle_listening-Safe :
      Safe (Inv spi keeps size block false listening) (handle_listening spi block)
  unfolding handle_listening
  handle_listening-Safe =
      Safe-bind _ _ (Safe-on_trans _ (is_command_pending-Safe spi keeps size block)) (λ waiting.
        Safe-if waiting _ _ (Safe-pure tt) (
          Safe-bind _ _ (Safe-on_trans _ (read_status-Safe spi keeps size block))
            listening_on-Safe))
