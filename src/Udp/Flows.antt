-- ===== src/Udp/Flows.antt =====
-- wiznet-rs/src/udp_socket.rs: the handlers of a UDP socket, against the edges out of their
-- status.
use wiznet_rs.Prelude.{ℕ, List, Bool, true, false, ltb, ◌==◌, replicate, ◌+◌, ◌%◌, ◌^◌}
use wiznet_rs.Safe.{Safe, Safe-bind, Safe-pure, Safe-gets, Safe-if}
use wiznet_rs.Spi.{SpiDmaDevice, KeepsBuffers}
use wiznet_rs.Transceiver.Block.{BlockAddress}
use wiznet_rs.Ring
use wiznet_rs.Ring.{SpscRing, wrapping_add}
use wiznet_rs.Ring.Bounds.{IsValid}
use wiznet_rs.Ring.Read.{read_lem}
use wiznet_rs.Ring.Write.{write_lem}
use wiznet_rs.Ring.Frames.{commit_frame-IsValid, release_frame-IsValid}
use wiznet_rs.Registers.Codes.{SocketCommand, SocketStatusRegister, recv_flag, timeout_flag}
use wiznet_rs.Registers.Ready.{
  init_socket-Safe, get_interrupts-Safe, clear_interrupts-Safe, set_src_port-Safe,
  set_dst_port-Safe, set_ipv4_dst_addr-Safe, send_sock_command-Safe, get_rx_received_size-Safe,
  get_rx_read_pointer-Safe, set_rx_read_pointer-Safe, read_rx_buffer-Safe,
  start_read_rx_buffer-Safe, get_tx_free_size-Safe, get_tx_write_pointer-Safe,
  start_write_tx_buffer-Safe, is_command_pending-Safe, read_status-Safe,
}
use wiznet_rs.Tick.{
  SocketStatus, init, opening, connecting, established, listening, BulkKind, BulkAction, started,
  drain_into,
}
use wiznet_rs.Tick.Status.{
  init_live, opening_live, connecting_live, listening_live, established_live,
}
use wiznet_rs.Tick.Ready.{Safe-on_trans, Safe-on_trans_tx, drain_into-IsValid}
use wiznet_rs.Udp.Frame.{
  SocketAddr, frame_header_len, packinfo_len, frame_header, parse_frame_header,
}
use wiznet_rs.Udp.Transfer.{
  u16_add, packinfo_payload, packinfo_peer, on_rx, on_tx, advance_rx, deliver_empty, start_payload,
  receive_packet, receive_datagram, send_empty, send_payload, send_staged, transmit, unless_started,
  handle_established,
}
use wiznet_rs.Udp.Run.{close_from, handle_init, opening_on, handle_opening}
use wiznet_rs.Udp.Edges.{
  close_requested, opened, bound, unexpected_register, Inv, Safe-set_status, Safe-command,
  Safe-unexpected,
}

module _ (spi : SpiDmaDevice) (keeps : KeepsBuffers spi) (size : ℕ) (block : BlockAddress) where
  module _ (q : Bool) (a : SocketStatus) where
    Safe-on_rx :
        (f : SpscRing → SpscRing)
        → ((r : SpscRing) → IsValid r → IsValid (f r))
        → Safe (Inv spi keeps size block q a) (on_rx spi f)
    Safe-on_rx f k = record {
      at = λ s h. (
        tt,
        record {
          bus = h.bus;
          rx_valid = k s.rings.rx h.rx_valid;
          tx_valid = h.tx_valid;
          proto_ok = h.proto_ok;
        },
      );
    }

    pub Safe-on_tx :
        (f : SpscRing → SpscRing)
        → ((r : SpscRing) → IsValid r → IsValid (f r))
        → Safe (Inv spi keeps size block q a) (on_tx spi f)
    Safe-on_tx f k = record {
      at = λ s h. (
        tt,
        record {
          bus = h.bus;
          rx_valid = h.rx_valid;
          tx_valid = k s.rings.tx h.tx_valid;
          proto_ok = h.proto_ok;
        },
      );
    }

    advance_rx-Safe : (end : ℕ) → Safe (Inv spi keeps size block q a) (advance_rx spi block end)
    advance_rx-Safe end =
        Safe-bind _ _ (Safe-on_trans _ (set_rx_read_pointer-Safe spi keeps size block end)) (λ _.
          Safe-bind _ _
            (Safe-on_trans _ (send_sock_command-Safe spi keeps size block SocketCommand.receive))
            (λ _. Safe-on_trans _ (clear_interrupts-Safe spi keeps size block recv_flag)))

    deliver_empty-Safe :
        (start : ℕ) (peer : SocketAddr)
        → Safe (Inv spi keeps size block q a) (deliver_empty spi block start peer)
    unfolding deliver_empty
    deliver_empty-Safe start peer =
        Safe-bind _ _
          (Safe-on_rx _ (λ r v. commit_frame-IsValid _ (write_lem r v (frame_header 0 peer)).2))
          (λ _.
            Safe-bind _ _ (advance_rx-Safe (u16_add start packinfo_len))
              (λ _. Safe-pure BulkAction.none))

    start_payload-Safe :
        (start : ℕ) (peer : SocketAddr) (len : ℕ)
        → Safe (Inv spi keeps size block q a) (start_payload spi block start peer len)
    unfolding start_payload
    start_payload-Safe start peer len =
        Safe-bind _ _ (Safe-on_trans _ (start_read_rx_buffer-Safe spi keeps size block _ len)) (λ _.
          Safe-pure (
            started (BulkKind.receive_datagram peer.ip peer.port) (u16_add start packinfo_len) len))

    receive_packet-Safe :
        (available start : ℕ) (head : List ℕ)
        → Safe (Inv spi keeps size block q a) (receive_packet spi block available start head)
    unfolding receive_packet
    receive_packet-Safe available start head =
        let n = packinfo_payload head in
        Safe-bind _ _ (Safe-gets (λ s. s.rings.rx)) (λ rx.
          Safe-if (ltb available (packinfo_len + n)) _ _ (Safe-pure BulkAction.none) (
            Safe-if (ltb (Ring.capacity rx) (frame_header_len + n)) _ _
              (Safe-bind _ _ (advance_rx-Safe (u16_add start ((packinfo_len + n) % 2 ^ 16)))
                (λ _. Safe-pure BulkAction.none))
              (Safe-if (ltb (Ring.free rx) (frame_header_len + n)) _ _ (Safe-pure BulkAction.none) (
                Safe-if (n == 0) _ _ (deliver_empty-Safe start (packinfo_peer head))
                  (start_payload-Safe start (packinfo_peer head) n)))))

    pub receive_datagram-Safe : Safe (Inv spi keeps size block q a) (receive_datagram spi block)
    unfolding receive_datagram
    receive_datagram-Safe =
        Safe-bind _ _ (Safe-on_trans _ (get_rx_received_size-Safe spi keeps size block))
          (λ available. Safe-if (ltb available packinfo_len) _ _ (Safe-pure BulkAction.none) (
            Safe-bind _ _ (Safe-on_trans _ (get_rx_read_pointer-Safe spi keeps size block))
              (λ start.
                Safe-bind _ _
                  (Safe-on_trans _
                    (read_rx_buffer-Safe spi keeps size block start (replicate packinfo_len 0)))
                  (λ head. receive_packet-Safe available start head))))

    send_empty-Safe : Safe (Inv spi keeps size block q a) (send_empty spi block)
    unfolding send_empty
    send_empty-Safe =
        Safe-bind _ _
          (Safe-on_trans _ (send_sock_command-Safe spi keeps size block SocketCommand.send))
          (λ _. Safe-bind _ _ (Safe-on_tx _ release_frame-IsValid) (λ _. Safe-pure BulkAction.none))

    send_payload-Safe : (len : ℕ) → Safe (Inv spi keeps size block q a) (send_payload spi block len)
    unfolding send_payload
    send_payload-Safe len =
        Safe-bind _ _ (Safe-on_trans _ (get_tx_write_pointer-Safe spi keeps size block)) (λ pointer.
          Safe-bind _ _
            (Safe-on_trans_tx _ (
              start_write_tx_buffer-Safe spi keeps size block IsValid pointer len drain_into
                drain_into-IsValid))
            (λ _.
              Safe-bind _ _ (Safe-on_tx _ release_frame-IsValid)
                (λ _. Safe-pure (started BulkKind.transmit pointer len))))

    send_staged-Safe :
        (len : ℕ) (dst : SocketAddr)
        → Safe (Inv spi keeps size block q a) (send_staged spi block len dst)
    unfolding send_staged
    send_staged-Safe len dst =
        Safe-bind _ _ (Safe-on_tx _ (λ r v. (read_lem r v (replicate frame_header_len 0)).3)) (λ _.
          Safe-bind _ _ (Safe-on_trans _ (set_ipv4_dst_addr-Safe spi keeps size block dst.ip)) (λ _.
            Safe-bind _ _ (Safe-on_trans _ (set_dst_port-Safe spi keeps size block dst.port))
              (λ _. Safe-if (len == 0) _ _ send_empty-Safe (send_payload-Safe len))))

    transmit-Safe : Safe (Inv spi keeps size block q a) (transmit spi block)
    unfolding transmit
    transmit-Safe = Safe-bind _ _ (Safe-gets _) (λ waiting.
        Safe-if (waiting == 0) _ _ (Safe-pure BulkAction.none) (
          Safe-bind _ _ (Safe-gets (λ s. (Ring.peek s.rings.tx (replicate frame_header_len 0)).1))
            (λ head.
              Safe-bind _ _ (Safe-on_trans _ (get_tx_free_size-Safe spi keeps size block)) (λ free.
                Safe-if (ltb free (parse_frame_header head).0) _ _ (Safe-pure BulkAction.none)
                  (send_staged-Safe (parse_frame_header head).0 (parse_frame_header head).1)))))

    unless_started-Safe :
        (action : BulkAction)
        → Safe (Inv spi keeps size block q a) (unless_started spi block action)
    unless_started-Safe (started kind pointer len) = Safe-pure (started kind pointer len)
    unless_started-Safe BulkAction.none = transmit-Safe

    pub handle_established-Safe : Safe (Inv spi keeps size block q a) (handle_established spi block)
    unfolding handle_established
    handle_established-Safe =
        Safe-bind _ _ (Safe-on_trans _ (get_interrupts-Safe spi keeps size block)) (λ interrupts.
          Safe-bind _ _
            (Safe-if interrupts.timeout _ _
              (Safe-on_trans _ (clear_interrupts-Safe spi keeps size block timeout_flag))
              (Safe-pure tt))
            (λ _. Safe-bind _ _ receive_datagram-Safe unless_started-Safe))

  pub handle_init-Safe : Safe (Inv spi keeps size block false init) (handle_init spi block)
  unfolding handle_init
  handle_init-Safe = Safe-bind _ _ (Safe-on_trans _ (init_socket-Safe spi keeps size block _)) (λ _.
      Safe-bind _ _ (Safe-gets _) (λ port.
        Safe-bind _ _ (Safe-on_trans _ (set_src_port-Safe spi keeps size block port))
          (λ _. Safe-command spi keeps size block _ _ SocketCommand.open_socket _ opened)))

  opening_on-Safe :
      (r : SocketStatusRegister)
      → Safe (Inv spi keeps size block false opening) (opening_on spi block r)
  unfolding opening_on
  opening_on-Safe SocketStatusRegister.udp = Safe-set_status spi keeps size block _ _ _ bound
  opening_on-Safe SocketStatusRegister.closed = Safe-pure tt
  opening_on-Safe _ = Safe-unexpected spi keeps size block _ _ unexpected_register

  pub handle_opening-Safe : Safe (Inv spi keeps size block false opening) (handle_opening spi block)
  unfolding handle_opening
  handle_opening-Safe =
      Safe-bind _ _ (Safe-on_trans _ (is_command_pending-Safe spi keeps size block)) (λ waiting.
        Safe-if waiting _ _ (Safe-pure tt)
          (Safe-bind _ _ (Safe-on_trans _ (read_status-Safe spi keeps size block)) opening_on-Safe))

  pub close_from-Safe :
      (a : SocketStatus) → Safe (Inv spi keeps size block true a) (close_from spi block a)
  unfolding close_from
  close_from-Safe init =
      Safe-command spi keeps size block _ _ SocketCommand.close _ (close_requested init_live)
  close_from-Safe opening =
      Safe-command spi keeps size block _ _ SocketCommand.close _ (close_requested opening_live)
  close_from-Safe connecting =
      Safe-command spi keeps size block _ _ SocketCommand.close _ (close_requested connecting_live)
  close_from-Safe listening =
      Safe-command spi keeps size block _ _ SocketCommand.close _ (close_requested listening_live)
  close_from-Safe established =
      Safe-command spi keeps size block _ _ SocketCommand.close _ (close_requested established_live)
  close_from-Safe _ = Safe-pure tt
