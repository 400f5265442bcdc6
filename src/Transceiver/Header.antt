-- ===== src/Transceiver/Header.antt =====
-- wiznet-rs/src/transiver.rs: `create_header`, and the header as the chip reads it.
use wiznet_rs.Prelude.{
  ℕ, ◌/◌, ◌%◌, ◌^◌, ◌<◌, ◌≡◌, refl, Bool, true, false, List, ◌==◌, arith, get_or,
}
use wiznet_rs.Bytes.{u16_of_bytes, u16_round_trip}
use wiznet_rs.Transceiver.Block.{
  BlockSelectionBits, common_register, block_bits, control_byte, Address, create_header,
}

-- What the chip takes from the three bytes: the address, the block's number and the RWB bit. The
-- two low bits, OM, select the data length mode.
pub record Decoded : Type 0 where
  pub address : ℕ
  pub block : ℕ
  pub write : Bool
  pub mode : ℕ

unfoldable pub decode_header : List ℕ → Decoded
decode_header h = record {
  address = u16_of_bytes (get_or h 0 0) (get_or h 1 0);
  block = get_or h 2 0 / 2 ^ 3;
  write = get_or h 2 0 / 2 ^ 2 % 2 == 1;
  mode = get_or h 2 0 % 2 ^ 2;
}

abbrev ControlOk : BlockSelectionBits → Bool → Type 0
ControlOk b w =
    (control_byte b w / 2 ^ 3 ≡ block_bits b)
    × ((control_byte b w / 2 ^ 2 % 2 == 1) ≡ w)
    × (control_byte b w % 2 ^ 2 ≡ 0)

control : (b : BlockSelectionBits) (w : Bool) → ControlOk b w
unfolding control_byte block_bits
control common_register true = (refl, refl, refl)
control _ true = (refl, refl, refl)
control common_register false = (refl, refl, refl)
control _ false = (refl, refl, refl)

-- The header of a 16-bit address is read back as that address and block, with the RWB bit as asked
-- for and the variable-length mode.
pub decode-create_header :
    (addr : Address) (w : Bool)
    → addr.address < 2 ^ 16
    → decode_header (create_header addr w)
      ≡ record { address = addr.address; block = block_bits addr.block; write = w; mode = 0 }
unfolding decode_header create_header
decode-create_header addr w h = ground (arith, control addr.block w, u16_round_trip addr.address)
