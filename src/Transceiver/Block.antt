-- ===== src/Transceiver/Block.antt =====
-- wiznet-rs/src/transiver.rs: addresses on the chip and the SPI command header.
use Prim.Native.Nat.{bit_or}
use wiznet_rs.Prelude.{ℕ, ◌*◌, ◌%◌, ◌^◌, Bool, List, [], ◌∷◌, ◌++◌, if◌then◌else◌}
use wiznet_rs.Bytes.{u16_bytes}

abbrev pub header_len : ℕ
header_len = 3

pub data BlockSelectionBits : Type 0 where
  common_register : BlockSelectionBits
  socket0_register socket0_tx_buffer socket0_rx_buffer : BlockSelectionBits
  socket1_register socket1_tx_buffer socket1_rx_buffer : BlockSelectionBits
  socket2_register socket2_tx_buffer socket2_rx_buffer : BlockSelectionBits
  socket3_register socket3_tx_buffer socket3_rx_buffer : BlockSelectionBits
  socket4_register socket4_tx_buffer socket4_rx_buffer : BlockSelectionBits
  socket5_register socket5_tx_buffer socket5_rx_buffer : BlockSelectionBits
  socket6_register socket6_tx_buffer socket6_rx_buffer : BlockSelectionBits
  socket7_register socket7_tx_buffer socket7_rx_buffer : BlockSelectionBits

-- `block as u8`
unfoldable pub block_bits : BlockSelectionBits → ℕ
block_bits common_register = 0
block_bits socket0_register = 0b00001
block_bits socket0_tx_buffer = 0b00010
block_bits socket0_rx_buffer = 0b00011
block_bits socket1_register = 0b00101
block_bits socket1_tx_buffer = 0b00110
block_bits socket1_rx_buffer = 0b00111
block_bits socket2_register = 0b01001
block_bits socket2_tx_buffer = 0b01010
block_bits socket2_rx_buffer = 0b01011
block_bits socket3_register = 0b01101
block_bits socket3_tx_buffer = 0b01110
block_bits socket3_rx_buffer = 0b01111
block_bits socket4_register = 0b10001
block_bits socket4_tx_buffer = 0b10010
block_bits socket4_rx_buffer = 0b10011
block_bits socket5_register = 0b10101
block_bits socket5_tx_buffer = 0b10110
block_bits socket5_rx_buffer = 0b10111
block_bits socket6_register = 0b11001
block_bits socket6_tx_buffer = 0b11010
block_bits socket6_rx_buffer = 0b11011
block_bits socket7_register = 0b11101
block_bits socket7_tx_buffer = 0b11110
block_bits socket7_rx_buffer = 0b11111

pub record BlockAddress : Type 0 where
  pub reg : BlockSelectionBits
  pub tx : BlockSelectionBits
  pub rx : BlockSelectionBits

pub record Address : Type 0 where
  pub address : ℕ
  pub block : BlockSelectionBits

-- the third header byte
unfoldable pub control_byte : BlockSelectionBits → Bool → ℕ
unfolding block_bits
control_byte block write = bit_or (block_bits block * 2 ^ 3 % 256) (if write then 0b100 else 0)

unfoldable pub create_header : Address → Bool → List ℕ
unfolding control_byte
create_header addr write = u16_bytes addr.address ++ control_byte addr.block write ∷ []
