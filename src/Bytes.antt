-- ===== src/Bytes.antt =====
-- `to_be_bytes` and `from_be_bytes` of the machine words that the driver puts on the bus.
use wiznet_rs.Prelude.{ℕ, ◌+◌, ◌*◌, ◌/◌, ◌%◌, ◌^◌, ◌<◌, ◌≡◌, List, [], ◌∷◌, arith}

abbrev pub u16_bytes : ℕ → List ℕ
u16_bytes v = (v / 256) % 256 ∷ v % 256 ∷ []

abbrev pub u32_bytes : ℕ → List ℕ
u32_bytes v = (v / 2 ^ 24) % 256 ∷ (v / 2 ^ 16) % 256 ∷ (v / 256) % 256 ∷ v % 256 ∷ []

abbrev pub u16_of_bytes : ℕ → ℕ → ℕ
u16_of_bytes a b = a * 256 + b

abbrev pub u32_of_bytes : ℕ → ℕ → ℕ → ℕ → ℕ
u32_of_bytes a b c d = a * 2 ^ 24 + b * 2 ^ 16 + c * 256 + d

-- the value of a big-endian byte string
abbrev pub from_be_bytes : List ℕ → ℕ → ℕ
from_be_bytes [] acc = acc
from_be_bytes (b ∷ bs) acc = from_be_bytes bs (acc * 256 + b)

pub u16_round_trip : (v : ℕ) → v < 2 ^ 16 → u16_of_bytes ((v / 256) % 256) (v % 256) ≡ v
u16_round_trip v h = omega arith

pub u32_round_trip :
    (v : ℕ)
    → v < 2 ^ 32
    → u32_of_bytes ((v / 2 ^ 24) % 256) ((v / 2 ^ 16) % 256) ((v / 256) % 256) (v % 256) ≡ v
u32_round_trip v h = omega arith
