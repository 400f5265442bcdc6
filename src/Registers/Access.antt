-- ===== src/Registers/Access.antt =====
-- wiznet-rs/src/socket_common.rs: the reads and writes of a socket's registers and buffers that
-- the protocols are built from.
use wiznet_rs.Prelude.{ℕ, Bool, true, false, not, List, ◌==◌}
use wiznet_rs.Exec.{Exec, pure, ◌>>=◌, ◌>>◌}
use wiznet_rs.Spi.{SpiDmaDevice}
use wiznet_rs.Transceiver.Block.{BlockSelectionBits, BlockAddress, Address}
use wiznet_rs.Transceiver.Execute.{
  Transceiver, read_bytes, write_bytes, read_u8, read_u16, write_u8, write_u16, write_u32,
}
use wiznet_rs.Transceiver.Async.{start_read, start_write}
use wiznet_rs.Registers.Codes.{
  sn_mr, sn_cr, sn_ir, sn_imr, sn_irclr, sn_sr, sn_portr0, sn_dipr0, sn_dportr0, sn_tx_fsr0,
  sn_tx_wr0, sn_rx_rsr0, sn_rx_rd0, SocketInterrupt, interrupt_bits, interrupt_of_bits,
  SocketCommand, command_code, SocketStatusRegister, status_of_code, SocketProtocolMode, mode_bits,
}

abbrev at : BlockSelectionBits → ℕ → Address
at block address = record { address = address; block = block }

module _ (spi : SpiDmaDevice) (block : BlockAddress) where
  -- the interrupts that `init_socket` enables: all but SENDOK
  abbrev enabled : SocketInterrupt
  enabled = record { sendok = false; timeout = true; recv = true; discon = true; con = true }

  unfoldable pub init_socket : SocketProtocolMode → Exec (Transceiver spi) (Unit {0})
  init_socket mode = do
    write_u8 spi (at block.reg sn_mr) (mode_bits mode)
    write_u8 spi (at block.reg sn_irclr) 0xFF
    write_u8 spi (at block.reg sn_imr) (interrupt_bits enabled)

  unfoldable pub get_interrupts : Exec (Transceiver spi) SocketInterrupt
  get_interrupts = do ir ← read_u8 spi (at block.reg sn_ir); pure (interrupt_of_bits ir)

  unfoldable pub clear_interrupts : SocketInterrupt → Exec (Transceiver spi) (Unit {0})
  clear_interrupts flags = write_u8 spi (at block.reg sn_irclr) (interrupt_bits flags)

  unfoldable pub set_src_port : ℕ → Exec (Transceiver spi) (Unit {0})
  set_src_port port = write_u16 spi (at block.reg sn_portr0) port

  unfoldable pub set_dst_port : ℕ → Exec (Transceiver spi) (Unit {0})
  set_dst_port port = write_u16 spi (at block.reg sn_dportr0) port

  unfoldable pub set_ipv4_dst_addr : ℕ → Exec (Transceiver spi) (Unit {0})
  set_ipv4_dst_addr address = write_u32 spi (at block.reg sn_dipr0) address

  unfoldable pub send_sock_command : SocketCommand → Exec (Transceiver spi) (Unit {0})
  send_sock_command command = write_u8 spi (at block.reg sn_cr) (command_code command)

  unfoldable pub get_rx_received_size : Exec (Transceiver spi) ℕ
  get_rx_received_size = read_u16 spi (at block.reg sn_rx_rsr0)

  unfoldable pub get_rx_read_pointer : Exec (Transceiver spi) ℕ
  get_rx_read_pointer = read_u16 spi (at block.reg sn_rx_rd0)

  unfoldable pub set_rx_read_pointer : ℕ → Exec (Transceiver spi) (Unit {0})
  set_rx_read_pointer pointer = write_u16 spi (at block.reg sn_rx_rd0) pointer

  unfoldable pub read_rx_buffer : ℕ → List ℕ → Exec (Transceiver spi) (List ℕ)
  read_rx_buffer pointer buf = read_bytes spi (at block.rx pointer) buf

  unfoldable pub start_read_rx_buffer : ℕ → ℕ → Exec (Transceiver spi) (Unit {0})
  start_read_rx_buffer pointer len = start_read spi (at block.rx pointer) len

  unfoldable pub get_tx_free_size : Exec (Transceiver spi) ℕ
  get_tx_free_size = read_u16 spi (at block.reg sn_tx_fsr0)

  unfoldable pub get_tx_write_pointer : Exec (Transceiver spi) ℕ
  get_tx_write_pointer = read_u16 spi (at block.reg sn_tx_wr0)

  unfoldable pub set_tx_write_pointer : ℕ → Exec (Transceiver spi) (Unit {0})
  set_tx_write_pointer pointer = write_u16 spi (at block.reg sn_tx_wr0) pointer

  unfoldable pub write_tx_buffer : ℕ → List ℕ → Exec (Transceiver spi) (Unit {0})
  write_tx_buffer pointer bytes = write_bytes spi (at block.tx pointer) bytes

  -- `E` is what `fill` has captured.
  unfoldable pub start_write_tx_buffer :
      {E : Type 0} → ℕ → ℕ → (List ℕ → E → List ℕ × E) → Exec (Transceiver spi × E) (Unit {0})
  start_write_tx_buffer pointer len fill = start_write spi (at block.tx pointer) len fill

  unfoldable pub is_command_pending : Exec (Transceiver spi) Bool
  is_command_pending = do value ← read_u8 spi (at block.reg sn_cr); pure (not (value == 0))

  unfoldable pub read_status : Exec (Transceiver spi) SocketStatusRegister
  read_status = do value ← read_u8 spi (at block.reg sn_sr); pure (status_of_code value)
