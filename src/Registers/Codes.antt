-- ===== src/Registers/Codes.antt =====
-- wiznet-rs/src/socket_common.rs: the values of a hardware socket's registers, each as the enum or
-- the flags that the driver reads and writes; and `SocketProtocolMode` of wiznet-rs/src/socket.rs.
use wiznet_rs.Prelude.{ℕ, ◌+◌, ◌/◌, ◌%◌, Bool, true, false, ◌==◌, if◌then◌else◌}

-- The register offsets in a socket's block.
abbrev pub sn_mr : ℕ
sn_mr = 0x0000

abbrev pub sn_cr : ℕ
sn_cr = 0x0010

abbrev pub sn_ir : ℕ
sn_ir = 0x0020

abbrev pub sn_imr : ℕ
sn_imr = 0x0024

abbrev pub sn_irclr : ℕ
sn_irclr = 0x0028

abbrev pub sn_sr : ℕ
sn_sr = 0x0030

abbrev pub sn_portr0 : ℕ
sn_portr0 = 0x0114

abbrev pub sn_dipr0 : ℕ
sn_dipr0 = 0x0120

abbrev pub sn_dportr0 : ℕ
sn_dportr0 = 0x0140

abbrev pub sn_tx_fsr0 : ℕ
sn_tx_fsr0 = 0x0204

abbrev pub sn_tx_wr0 : ℕ
sn_tx_wr0 = 0x020C

abbrev pub sn_rx_rsr0 : ℕ
sn_rx_rsr0 = 0x0224

abbrev pub sn_rx_rd0 : ℕ
sn_rx_rd0 = 0x0228

-- `SocketInterrupt`: the flags as a register value, one bit each.
pub record SocketInterrupt : Type 0 where
  pub sendok : Bool
  pub timeout : Bool
  pub recv : Bool
  pub discon : Bool
  pub con : Bool

abbrev bit : Bool → ℕ → ℕ
bit b k = if b then k else 0

-- `bits()`
unfoldable pub interrupt_bits : SocketInterrupt → ℕ
interrupt_bits i = bit i.sendok 16 + bit i.timeout 8 + bit i.recv 4 + bit i.discon 2 + bit i.con 1

abbrev bit_at : ℕ → ℕ → Bool
bit_at v k = v / k % 2 == 1

-- `from_bits_truncate`
unfoldable pub interrupt_of_bits : ℕ → SocketInterrupt
interrupt_of_bits v = record {
  sendok = bit_at v 16;
  timeout = bit_at v 8;
  recv = bit_at v 4;
  discon = bit_at v 2;
  con = bit_at v 1;
}

abbrev pub no_interrupt : SocketInterrupt
no_interrupt = record { sendok = false; timeout = false; recv = false; discon = false; con = false }

abbrev pub timeout_flag : SocketInterrupt
timeout_flag = record no_interrupt { timeout = true }

abbrev pub recv_flag : SocketInterrupt
recv_flag = record no_interrupt { recv = true }

abbrev pub discon_flag : SocketInterrupt
discon_flag = record no_interrupt { discon = true }

abbrev pub con_flag : SocketInterrupt
con_flag = record no_interrupt { con = true }

pub data SocketCommand : Type 0 where
  none open_socket listen connect connect6 disconnect close send send6 send_keep receive :
      SocketCommand

-- `command as u8`
unfoldable pub command_code : SocketCommand → ℕ
command_code none = 0
command_code open_socket = 0x01
command_code listen = 0x02
command_code connect = 0x04
command_code connect6 = 0x84
command_code disconnect = 0x08
command_code close = 0x10
command_code send = 0x20
command_code send6 = 0xA0
command_code send_keep = 0x22
command_code receive = 0x40

pub data SocketStatusRegister : Type 0 where
  closed init listen established close_wait udp ipraw ipraw6 macraw : SocketStatusRegister
  synsent synrecv fin_wait time_wait last_ack unknown : SocketStatusRegister

-- the enum's discriminants
unfoldable pub status_code : SocketStatusRegister → ℕ
status_code closed = 0x00
status_code init = 0x13
status_code listen = 0x14
status_code established = 0x17
status_code close_wait = 0x1C
status_code udp = 0x22
status_code ipraw = 0x32
status_code ipraw6 = 0x33
status_code macraw = 0x42
status_code synsent = 0x15
status_code synrecv = 0x16
status_code fin_wait = 0x18
status_code time_wait = 0x1B
status_code last_ack = 0x1D
status_code unknown = 0xFF

-- the `match value` of `read_status`
unfoldable pub status_of_code : ℕ → SocketStatusRegister
status_of_code value =
    if value == 0x00
    then closed
    else if value == 0x13
    then init
    else if value == 0x14
    then SocketStatusRegister.listen
    else if value == 0x17
    then established
    else if value == 0x1C
    then close_wait
    else if value == 0x22
    then udp
    else if value == 0x32
    then ipraw
    else if value == 0x33
    then ipraw6
    else if value == 0x42
    then macraw
    else if value == 0x15
    then synsent
    else if value == 0x16
    then synrecv
    else if value == 0x18
    then fin_wait
    else if value == 0x1B
    then time_wait
    else if value == 0x1D
    then last_ack
    else unknown

-- `SocketProtocolMode`
pub data SocketProtocolMode : Type 0 where
  closed tcp4 udp4 ipraw4 macraw tcp6 udp6 ipraw6 tcp_dual udp_dual mask : SocketProtocolMode

unfoldable pub mode_bits : SocketProtocolMode → ℕ
mode_bits closed = 0b0000
mode_bits tcp4 = 0b0001
mode_bits udp4 = 0b0010
mode_bits ipraw4 = 0b0011
mode_bits macraw = 0b0111
mode_bits tcp6 = 0b1001
mode_bits udp6 = 0b1010
mode_bits ipraw6 = 0b1011
mode_bits tcp_dual = 0b1101
mode_bits udp_dual = 0b1110
mode_bits mask = 0b1111
