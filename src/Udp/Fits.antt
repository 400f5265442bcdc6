-- ===== src/Udp/Fits.antt =====
-- wiznet-rs/src/udp_socket.rs: a transfer that a tick starts fits the scratch buffers.
use wiznet_rs.Prelude.{
  ℕ, ◌+◌, ◌%◌, ◌^◌, Bool, true, false, if◌then◌else◌, List, ltb, ◌==◌, replicate,
}
use wiznet_rs.Exec.{Result, ok, err, panic, out_of_fuel, would_block, other}
use wiznet_rs.Safe.{Safe-gets, Safe-if, Safe-pure}
use wiznet_rs.Yields.{
  Given, Yields, Anyhow, Yields-pure, Yields-if, Yields-bind, Yields-known, Anyhow-pure,
  Anyhow-bind, Anyhow-Yields,
}
use wiznet_rs.Spi.{SpiDmaDevice, KeepsBuffers}
use wiznet_rs.Transceiver.Block.{BlockAddress}
use wiznet_rs.Ring
use wiznet_rs.Ring.{SpscRing}
use wiznet_rs.Registers.Codes.{SocketCommand, timeout_flag}
use wiznet_rs.Registers.Access.{send_sock_command}
use wiznet_rs.Registers.Ready.{
  set_ipv4_dst_addr-Safe, set_dst_port-Safe, get_tx_free_size-Safe, get_tx_write_pointer-Safe,
  start_write_tx_buffer-Safe, get_interrupts-Safe, clear_interrupts-Safe, get_rx_received_size-Safe,
  get_rx_read_pointer-Safe, read_rx_buffer-Safe, start_read_rx_buffer-Safe,
}
use wiznet_rs.Tick.{SocketStatus, BulkKind, BulkAction, started, on_trans, drain_into}
use wiznet_rs.Ring.Bounds.{IsValid}
use wiznet_rs.Ring.Read.{read_lem}
use wiznet_rs.Tick.Ready.{Ready, Safe-on_trans, Safe-on_trans_tx, drain_into-IsValid}
use wiznet_rs.Tick.Fits.{
  LenFits, ActionFits, start_read_rx_buffer-Yields, start_write_tx_buffer-Yields,
}
use wiznet_rs.Udp.Frame.{
  SocketAddr, frame_header_len, packinfo_len, frame_header, parse_frame_header,
}
use wiznet_rs.Udp.State.{UdpTick, Run}
use wiznet_rs.Udp.Transfer.{
  u16_add, packinfo_payload, packinfo_peer, on_rx, on_tx, advance_rx, deliver_empty, start_payload,
  receive_packet, receive_datagram, send_empty, send_payload, send_staged, transmit, unless_started,
  handle_established,
}
use wiznet_rs.Udp.Edges.{stay, Inv}
use wiznet_rs.Udp.Flows.{receive_datagram-Safe, Safe-on_tx}
use wiznet_rs.Udp.Run.{handle_close, no_bulk, dispatch, store_error, run}

module _ (spi : SpiDmaDevice) (keeps : KeepsBuffers spi) (size : ℕ) (block : BlockAddress) where
  no_bulk-Anyhow : (m : Run spi (Unit {0})) → Anyhow (ActionFits size) (no_bulk spi block m)
  no_bulk-Anyhow m = Anyhow-bind m _ (λ _. Anyhow-pure BulkAction.none tt)

  send_empty-Anyhow : Anyhow (ActionFits size) (send_empty spi block)
  unfolding send_empty
  send_empty-Anyhow =
      Anyhow-bind (on_trans (send_sock_command spi block SocketCommand.send)) _
        (λ _. Anyhow-bind (on_tx spi Ring.release_frame) _ (λ _. Anyhow-pure BulkAction.none tt))

  deliver_empty-Anyhow :
      (start : ℕ) (peer : SocketAddr)
      → Anyhow (ActionFits size) (deliver_empty spi block start peer)
  unfolding deliver_empty
  deliver_empty-Anyhow start peer =
      Anyhow-bind (on_rx spi (λ r. Ring.commit_frame (Ring.write r (frame_header 0 peer)).1)) _
        (λ _. no_bulk-Anyhow (advance_rx spi block (u16_add start packinfo_len)))

  module _ (q : Bool) (a : SocketStatus) where
    send_payload-Yields :
        (len : ℕ)
        → Yields (Inv spi keeps size block q a) (ActionFits size) (send_payload spi block len)
    unfolding send_payload
    send_payload-Yields len =
        Yields-bind _ _ (Safe-on_trans _ (get_tx_write_pointer-Safe spi keeps size block))
          (λ pointer.
            Yields-known (λ _. LenFits size len) _ _
              (Safe-on_trans_tx _ (
                start_write_tx_buffer-Safe spi keeps size block IsValid pointer len drain_into
                  drain_into-IsValid))
              (start_write_tx_buffer-Yields spi keeps size block pointer len drain_into)
              (λ _ fit. Anyhow-Yields _ (
                Anyhow-bind (on_tx spi Ring.release_frame) _
                  (λ _. Anyhow-pure (started BulkKind.transmit pointer len) fit))))

    send_staged-Yields :
        (len : ℕ) (dst : SocketAddr)
        → Yields (Inv spi keeps size block q a) (ActionFits size) (send_staged spi block len dst)
    unfolding send_staged
    send_staged-Yields len dst =
        Yields-bind _ _
          (Safe-on_tx spi keeps size block q a _
            (λ r v. (read_lem r v (replicate frame_header_len 0)).3))
          (λ _.
            Yields-bind _ _ (Safe-on_trans _ (set_ipv4_dst_addr-Safe spi keeps size block dst.ip))
              (λ _.
                Yields-bind _ _ (Safe-on_trans _ (set_dst_port-Safe spi keeps size block dst.port))
                  (λ _.
                    Yields-if (len == 0) _ _ (Anyhow-Yields _ send_empty-Anyhow)
                      (send_payload-Yields len))))

    transmit-Yields : Yields (Inv spi keeps size block q a) (ActionFits size) (transmit spi block)
    unfolding transmit
    transmit-Yields = Yields-bind _ _ (Safe-gets _) (λ waiting.
        Yields-if (waiting == 0) _ _ (Yields-pure BulkAction.none tt) (
          Yields-bind _ _ (Safe-gets (λ s. (Ring.peek s.rings.tx (replicate frame_header_len 0)).1))
            (λ head.
              Yields-bind _ _ (Safe-on_trans _ (get_tx_free_size-Safe spi keeps size block))
                (λ free.
                  Yields-if (ltb free (parse_frame_header head).0) _ _
                    (Yields-pure BulkAction.none tt)
                    (send_staged-Yields (parse_frame_header head).0 (parse_frame_header head).1)))))

    unless_started-Yields :
        (action : BulkAction)
        → ActionFits size action
        → Yields (Inv spi keeps size block q a) (ActionFits size) (unless_started spi block action)
    unless_started-Yields (started kind pointer len) fit =
        Yields-pure (started kind pointer len) fit
    unless_started-Yields BulkAction.none fit = transmit-Yields

    start_payload-Yields :
        (start : ℕ) (peer : SocketAddr) (len : ℕ)
        → Yields
            (Inv spi keeps size block q a)
            (ActionFits size)
            (start_payload spi block start peer len)
    unfolding start_payload
    start_payload-Yields start peer len =
        Yields-known (λ _. LenFits size len) _ _
          (Safe-on_trans _ (start_read_rx_buffer-Safe spi keeps size block _ len))
          (start_read_rx_buffer-Yields spi keeps size block _ len)
          (λ _ fit.
            Yields-pure
              (started (BulkKind.receive_datagram peer.ip peer.port) (u16_add start packinfo_len)
                len)
              fit)

    receive_packet-Yields :
        (available start : ℕ) (head : List ℕ)
        → Yields
            (Inv spi keeps size block q a)
            (ActionFits size)
            (receive_packet spi block available start head)
    unfolding receive_packet
    receive_packet-Yields available start head =
        let n = packinfo_payload head in
        Yields-bind _ _ (Safe-gets (λ s. s.rings.rx)) (λ rx.
          Yields-if (ltb available (packinfo_len + n)) _ _ (Yields-pure BulkAction.none tt) (
            Yields-if (ltb (Ring.capacity rx) (frame_header_len + n)) _ _
              (Anyhow-Yields _ (
                no_bulk-Anyhow
                  (advance_rx spi block (u16_add start ((packinfo_len + n) % 2 ^ 16)))))
              (Yields-if (ltb (Ring.free rx) (frame_header_len + n)) _ _
                (Yields-pure BulkAction.none tt)
                (Yields-if (n == 0) _ _
                  (Anyhow-Yields _ (deliver_empty-Anyhow start (packinfo_peer head)))
                  (start_payload-Yields start (packinfo_peer head) n)))))

    receive_datagram-Yields :
        Yields (Inv spi keeps size block q a) (ActionFits size) (receive_datagram spi block)
    unfolding receive_datagram
    receive_datagram-Yields =
        Yields-bind _ _ (Safe-on_trans _ (get_rx_received_size-Safe spi keeps size block))
          (λ available.
            Yields-if (ltb available packinfo_len) _ _ (Yields-pure BulkAction.none tt) (
              Yields-bind _ _ (Safe-on_trans _ (get_rx_read_pointer-Safe spi keeps size block))
                (λ start.
                  Yields-bind _ _
                    (Safe-on_trans _
                      (read_rx_buffer-Safe spi keeps size block start (replicate packinfo_len 0)))
                    (λ head. receive_packet-Yields available start head))))

    handle_established-Yields :
        Yields (Inv spi keeps size block q a) (ActionFits size) (handle_established spi block)
    unfolding handle_established
    handle_established-Yields =
        Yields-bind _ _ (Safe-on_trans _ (get_interrupts-Safe spi keeps size block)) (λ interrupts.
          Yields-bind _ _
            (Safe-if interrupts.timeout _ _
              (Safe-on_trans _ (clear_interrupts-Safe spi keeps size block timeout_flag))
              (Safe-pure tt))
            (λ _.
              Yields-known (ActionFits size) _ _ (receive_datagram-Safe spi keeps size block q a)
                receive_datagram-Yields unless_started-Yields))

    dispatch-Yields :
        (b : SocketStatus)
        → Yields (Inv spi keeps size block q a) (ActionFits size) (dispatch spi block b)
    unfolding dispatch
    dispatch-Yields SocketStatus.established = handle_established-Yields
    dispatch-Yields SocketStatus.init = Anyhow-Yields _ (no_bulk-Anyhow _)
    dispatch-Yields SocketStatus.opening = Anyhow-Yields _ (no_bulk-Anyhow _)
    dispatch-Yields SocketStatus.connecting = Yields-pure BulkAction.none tt
    dispatch-Yields SocketStatus.listening = Yields-pure BulkAction.none tt
    dispatch-Yields SocketStatus.closing_due_to_error = Anyhow-Yields _ (no_bulk-Anyhow _)
    dispatch-Yields SocketStatus.closing_due_to_timeout = Anyhow-Yields _ (no_bulk-Anyhow _)
    dispatch-Yields SocketStatus.closing = Anyhow-Yields _ (no_bulk-Anyhow _)
    dispatch-Yields SocketStatus.timeout = Yields-pure BulkAction.none tt
    dispatch-Yields SocketStatus.closed = Yields-pure BulkAction.none tt
    dispatch-Yields SocketStatus.error = Yields-pure BulkAction.none tt

  store_error-Given :
      (m : Result BulkAction × UdpTick spi)
      → Given (ActionFits size) m.0
      → Given (ActionFits size) (store_error spi block m).0
  unfolding store_error
  store_error-Given (ok action, s) g = g
  store_error-Given (err would_block, s) g = tt
  store_error-Given (err (other e), s) g = tt
  store_error-Given (panic, s) g = tt
  store_error-Given (out_of_fuel, s) g = tt

  -- A tick on a ready bus and valid rings starts no transfer that the scratch buffers do not hold.
  pub udp_run-Yields : Yields (Ready spi size) (ActionFits size) (run spi block)
  unfolding run
  udp_run-Yields = record { at = λ s h. store_error-Given _ (chosen s.proto.close_requested s h) }
    where
      chosen :
          (q : Bool) (s : UdpTick spi)
          → Ready spi size s
          → Given
              (ActionFits size)
              ((if q
                then no_bulk spi block (handle_close spi block) s
                else dispatch spi block s.proto.status s)).0
      chosen true s h = (no_bulk-Anyhow (handle_close spi block)).given s
      chosen false s h =
          (dispatch-Yields false s.proto.status s.proto.status).at s
            (record { bus = h.bus; rx_valid = h.rx_valid; tx_valid = h.tx_valid; proto_ok = stay })
