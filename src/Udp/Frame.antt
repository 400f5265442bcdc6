-- ===== src/Udp/Frame.antt =====
-- wiznet-rs/src/udp_socket.rs: the header that goes before each datagram in a ring.
use wiznet_rs.Prelude.{ℕ, List, ◌++◌, get_or}
use wiznet_rs.Bytes.{u16_bytes, u32_bytes, u16_of_bytes, u32_of_bytes}

pub record SocketAddr : Type 0 where
  pub ip : ℕ
  pub port : ℕ

-- `FRAME_HEADER` and `PACKINFO`
abbrev pub frame_header_len : ℕ
frame_header_len = 8

abbrev pub packinfo_len : ℕ
packinfo_len = 8

abbrev pub packinfo_len_mask : ℕ
packinfo_len_mask = 0x07FF

unfoldable pub frame_header : ℕ → SocketAddr → List ℕ
frame_header len addr = u16_bytes len ++ u32_bytes addr.ip ++ u16_bytes addr.port

-- `h[i]`
abbrev pub byte : List ℕ → ℕ → ℕ
byte h i = get_or h i 0

unfoldable pub parse_frame_header : List ℕ → ℕ × SocketAddr
parse_frame_header h = (
  u16_of_bytes (byte h 0) (byte h 1),
  record {
    ip = u32_of_bytes (byte h 2) (byte h 3) (byte h 4) (byte h 5);
    port = u16_of_bytes (byte h 6) (byte h 7);
  },
)
