-- ===== src/Udp/Transfer.antt =====
-- wiznet-rs/src/udp_socket.rs: the datagram path of an open socket.
use Prim.Native.Nat.{bit_and}
use wiznet_rs.Prelude.{ℕ, ◌+◌, ◌%◌, ◌^◌, List, ltb, ◌==◌, if◌then◌else◌, replicate}
use wiznet_rs.Exec.{pure, gets, modify, ◌>>=◌, ◌>>◌}
use wiznet_rs.Spi.{SpiDmaDevice}
use wiznet_rs.Transceiver.Block.{BlockAddress}
use wiznet_rs.Ring
use wiznet_rs.Ring.{SpscRing}
use wiznet_rs.Registers.Codes.{timeout_flag, recv_flag, send, receive}
use wiznet_rs.Registers.Access.{
  get_interrupts, clear_interrupts, set_dst_port, set_ipv4_dst_addr, send_sock_command,
  get_rx_received_size, get_rx_read_pointer, set_rx_read_pointer, read_rx_buffer,
  start_read_rx_buffer, get_tx_free_size, get_tx_write_pointer, start_write_tx_buffer,
}
use wiznet_rs.Tick.{BulkKind, BulkAction, started, on_trans, on_trans_tx, drain_into}
use wiznet_rs.Udp.State.{Run}
use wiznet_rs.Bytes.{u16_of_bytes, u32_of_bytes}
use wiznet_rs.Udp.Frame.{
  SocketAddr, frame_header_len, packinfo_len, packinfo_len_mask, frame_header, parse_frame_header,
  byte,
}

-- `wrapping_add` on the chip's 16-bit pointers
abbrev pub u16_add : ℕ → ℕ → ℕ
u16_add a b = (a + b) % 2 ^ 16

-- The fields of the chip's PACKINFO header.
unfoldable pub packinfo_payload : List ℕ → ℕ
packinfo_payload head = bit_and (u16_of_bytes (byte head 0) (byte head 1)) packinfo_len_mask

abbrev pub packinfo_peer : List ℕ → SocketAddr
packinfo_peer head = record {
  ip = u32_of_bytes (byte head 2) (byte head 3) (byte head 4) (byte head 5);
  port = u16_of_bytes (byte head 6) (byte head 7);
}

module _ (spi : SpiDmaDevice) where
  -- `rings.rx.write(…)`, with its count dropped, and the frame counters
  abbrev pub on_rx : (SpscRing → SpscRing) → Run spi (Unit {0})
  on_rx f = modify (λ s. record s { rings = record s.rings { rx = f s.rings.rx } })

  abbrev pub on_tx : (SpscRing → SpscRing) → Run spi (Unit {0})
  on_tx f = modify (λ s. record s { rings = record s.rings { tx = f s.rings.tx } })

  module _ (block : BlockAddress) where
    -- The packet is skipped on the chip up to `end`.
    abbrev pub advance_rx : ℕ → Run spi (Unit {0})
    advance_rx end = do
      on_trans (set_rx_read_pointer spi block end)
      on_trans (send_sock_command spi block receive)
      on_trans (clear_interrupts spi block recv_flag)

    -- An empty datagram: its frame is staged at once.
    unfoldable pub deliver_empty : ℕ → SocketAddr → Run spi BulkAction
    deliver_empty start peer = do
      on_rx (λ r. Ring.commit_frame (Ring.write r (frame_header 0 peer)).1)
      advance_rx (u16_add start packinfo_len)
      pure BulkAction.none

    unfoldable pub start_payload : ℕ → SocketAddr → ℕ → Run spi BulkAction
    start_payload start peer payload_len = do
      let payload_ptr = u16_add start packinfo_len
      on_trans (start_read_rx_buffer spi block payload_ptr payload_len)
      pure (started (BulkKind.receive_datagram peer.ip peer.port) payload_ptr payload_len)

    -- A packet whose header `head` was read at `start`, from a chip that holds `available` bytes.
    unfoldable pub receive_packet : (available start : ℕ) → List ℕ → Run spi BulkAction
    unfolding packinfo_payload deliver_empty start_payload
    receive_packet available start head = do
      let payload_len = packinfo_payload head
      let peer = packinfo_peer head
      let framed_len = frame_header_len + payload_len
      rx ← gets (λ s. s.rings.rx)
      if ltb available (packinfo_len + payload_len)
          then pure BulkAction.none
          else if ltb (Ring.capacity rx) framed_len
          then (advance_rx (u16_add start ((packinfo_len + payload_len) % 2 ^ 16))
              >> pure BulkAction.none)
          else if ltb (Ring.free rx) framed_len
          then pure BulkAction.none
          else if payload_len == 0
          then deliver_empty start peer
          else start_payload start peer payload_len

    unfoldable pub receive_datagram : Run spi BulkAction
    unfolding receive_packet
    receive_datagram = do
      available ← on_trans (get_rx_received_size spi block)
      if ltb available packinfo_len then pure BulkAction.none else do
        start ← on_trans (get_rx_read_pointer spi block)
        head ← on_trans (read_rx_buffer spi block start (replicate packinfo_len 0))
        receive_packet available start head

    -- An empty datagram: `SEND` alone.
    unfoldable pub send_empty : Run spi BulkAction
    send_empty = do
      on_trans (send_sock_command spi block send)
      on_tx Ring.release_frame
      pure BulkAction.none

    unfoldable pub send_payload : ℕ → Run spi BulkAction
    send_payload payload_len = do
      pointer ← on_trans (get_tx_write_pointer spi block)
      on_trans_tx (start_write_tx_buffer spi block pointer payload_len drain_into)
      on_tx Ring.release_frame
      pure (started BulkKind.transmit pointer payload_len)

    -- A staged datagram of `payload_len` bytes to `dst`, once the chip has room for it.
    unfoldable pub send_staged : ℕ → SocketAddr → Run spi BulkAction
    unfolding send_empty send_payload
    send_staged payload_len dst = do
      on_tx (λ r. (Ring.read r (replicate frame_header_len 0)).2)
      on_trans (set_ipv4_dst_addr spi block dst.ip)
      on_trans (set_dst_port spi block dst.port)
      if payload_len == 0 then send_empty else send_payload payload_len

    unfoldable pub transmit : Run spi BulkAction
    unfolding send_staged
    transmit = do
      waiting ← gets (λ s. Ring.frames s.rings.tx)
      if waiting == 0 then pure BulkAction.none else do
        head ← gets (λ s. (Ring.peek s.rings.tx (replicate frame_header_len 0)).1)
        let (payload_len, dst) = parse_frame_header head
        free ← on_trans (get_tx_free_size spi block)
        if ltb free payload_len then pure BulkAction.none else send_staged payload_len dst

    -- `transmit`, if the receive that comes first started nothing
    abbrev pub unless_started : BulkAction → Run spi BulkAction
    unless_started (started kind pointer len) = pure (started kind pointer len)
    unless_started BulkAction.none = transmit

    unfoldable pub handle_established : Run spi BulkAction
    unfolding receive_datagram transmit
    handle_established = do
      interrupts ← on_trans (get_interrupts spi block)
      if interrupts.timeout then on_trans (clear_interrupts spi block timeout_flag) else pure tt
      action ← receive_datagram
      unless_started action
