-- ===== src/Registers/Ready.antt =====
-- wiznet-rs/src/socket_common.rs: the register calls on a ready bus.
use wiznet_rs.Prelude.{ℕ, List}
use wiznet_rs.Safe.{Safe, Safe-bind, Safe-pure}
use wiznet_rs.Spi.{SpiDmaDevice, KeepsBuffers}
use wiznet_rs.Transceiver.Block.{BlockAddress}
use wiznet_rs.Transceiver.Ready.{
  IsReady, Both, read_bytes-Safe, write_bytes-Safe, read_u8-Safe, read_u16-Safe, write_u8-Safe,
  write_u16-Safe, write_u32-Safe,
}
use wiznet_rs.Transceiver.Flight.{start_read-Safe, start_write-Safe}
use wiznet_rs.Registers.Codes.{SocketInterrupt, SocketCommand, SocketProtocolMode}
use wiznet_rs.Registers.Access.{
  init_socket, get_interrupts, clear_interrupts, set_src_port, set_dst_port, set_ipv4_dst_addr,
  send_sock_command, get_rx_received_size, get_rx_read_pointer, set_rx_read_pointer, read_rx_buffer,
  start_read_rx_buffer, get_tx_free_size, get_tx_write_pointer, set_tx_write_pointer,
  write_tx_buffer, start_write_tx_buffer, is_command_pending, read_status,
}

module _ (spi : SpiDmaDevice) (keeps : KeepsBuffers spi) (size : ℕ) (block : BlockAddress) where
  pub init_socket-Safe :
      (mode : SocketProtocolMode) → Safe (IsReady spi size) (init_socket spi block mode)
  unfolding init_socket
  init_socket-Safe mode = Safe-bind _ _ (write_u8-Safe spi keeps size _ _) (λ _.
      Safe-bind _ _ (write_u8-Safe spi keeps size _ _) (λ _. write_u8-Safe spi keeps size _ _))

  pub get_interrupts-Safe : Safe (IsReady spi size) (get_interrupts spi block)
  unfolding get_interrupts
  get_interrupts-Safe = Safe-bind _ _ (read_u8-Safe spi keeps size _) (λ ir. Safe-pure _)

  pub clear_interrupts-Safe :
      (flags : SocketInterrupt) → Safe (IsReady spi size) (clear_interrupts spi block flags)
  unfolding clear_interrupts
  clear_interrupts-Safe flags = write_u8-Safe spi keeps size _ _

  pub set_src_port-Safe : (port : ℕ) → Safe (IsReady spi size) (set_src_port spi block port)
  unfolding set_src_port
  set_src_port-Safe port = write_u16-Safe spi keeps size _ _

  pub set_dst_port-Safe : (port : ℕ) → Safe (IsReady spi size) (set_dst_port spi block port)
  unfolding set_dst_port
  set_dst_port-Safe port = write_u16-Safe spi keeps size _ _

  pub set_ipv4_dst_addr-Safe :
      (address : ℕ) → Safe (IsReady spi size) (set_ipv4_dst_addr spi block address)
  unfolding set_ipv4_dst_addr
  set_ipv4_dst_addr-Safe address = write_u32-Safe spi keeps size _ _

  pub send_sock_command-Safe :
      (c : SocketCommand) → Safe (IsReady spi size) (send_sock_command spi block c)
  unfolding send_sock_command
  send_sock_command-Safe c = write_u8-Safe spi keeps size _ _

  pub get_rx_received_size-Safe : Safe (IsReady spi size) (get_rx_received_size spi block)
  unfolding get_rx_received_size
  get_rx_received_size-Safe = read_u16-Safe spi keeps size _

  pub get_rx_read_pointer-Safe : Safe (IsReady spi size) (get_rx_read_pointer spi block)
  unfolding get_rx_read_pointer
  get_rx_read_pointer-Safe = read_u16-Safe spi keeps size _

  pub set_rx_read_pointer-Safe : (p : ℕ) → Safe (IsReady spi size) (set_rx_read_pointer spi block p)
  unfolding set_rx_read_pointer
  set_rx_read_pointer-Safe p = write_u16-Safe spi keeps size _ _

  pub read_rx_buffer-Safe :
      (p : ℕ) (buf : List ℕ) → Safe (IsReady spi size) (read_rx_buffer spi block p buf)
  unfolding read_rx_buffer
  read_rx_buffer-Safe p buf = read_bytes-Safe spi keeps size _ buf

  pub start_read_rx_buffer-Safe :
      (p len : ℕ) → Safe (IsReady spi size) (start_read_rx_buffer spi block p len)
  unfolding start_read_rx_buffer
  start_read_rx_buffer-Safe p len = start_read-Safe spi keeps size _ len

  pub get_tx_free_size-Safe : Safe (IsReady spi size) (get_tx_free_size spi block)
  unfolding get_tx_free_size
  get_tx_free_size-Safe = read_u16-Safe spi keeps size _

  pub get_tx_write_pointer-Safe : Safe (IsReady spi size) (get_tx_write_pointer spi block)
  unfolding get_tx_write_pointer
  get_tx_write_pointer-Safe = read_u16-Safe spi keeps size _

  pub set_tx_write_pointer-Safe :
      (p : ℕ) → Safe (IsReady spi size) (set_tx_write_pointer spi block p)
  unfolding set_tx_write_pointer
  set_tx_write_pointer-Safe p = write_u16-Safe spi keeps size _ _

  pub write_tx_buffer-Safe :
      (p : ℕ) (bytes : List ℕ) → Safe (IsReady spi size) (write_tx_buffer spi block p bytes)
  unfolding write_tx_buffer
  write_tx_buffer-Safe p bytes = write_bytes-Safe spi keeps size _ bytes

  pub start_write_tx_buffer-Safe :
      {E : Type 0} (J : E → Type 0) (p len : ℕ) (fill : List ℕ → E → List ℕ × E)
      → ((buf : List ℕ) (e : E) → J e → J (fill buf e).1)
      → Safe (Both spi size J) (start_write_tx_buffer spi block p len fill)
  unfolding start_write_tx_buffer
  start_write_tx_buffer-Safe J p len fill k = start_write-Safe spi keeps size J _ len fill k

  pub is_command_pending-Safe : Safe (IsReady spi size) (is_command_pending spi block)
  unfolding is_command_pending
  is_command_pending-Safe = Safe-bind _ _ (read_u8-Safe spi keeps size _) (λ v. Safe-pure _)

  pub read_status-Safe : Safe (IsReady spi size) (read_status spi block)
  unfolding read_status
  read_status-Safe = Safe-bind _ _ (read_u8-Safe spi keeps size _) (λ v. Safe-pure _)
