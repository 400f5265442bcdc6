-- ===== src/Registers/Laws.antt =====
-- wiznet-rs/src/socket_common.rs: the codes of the registers and what is decoded from them.
use wiznet_rs.Prelude.{ℕ, ◌≡◌, refl, arith}
use wiznet_rs.Registers.Codes.{SocketStatusRegister, status_code, status_of_code}

-- Every status that the driver knows is decoded from its own code.
pub status_of_code-status_code : (s : SocketStatusRegister) → status_of_code (status_code s) ≡ s
unfolding status_of_code status_code
status_of_code-status_code SocketStatusRegister.closed = refl
status_of_code-status_code _ = refl

-- A value that is not decoded as `unknown` is the code of what it is decoded as. No two codes are
-- confused, and no unlisted value is taken for a status.
pub status_code-status_of_code :
    (v : ℕ)
    → (status_of_code v ≡ SocketStatusRegister.unknown → ⊥)
    → status_code (status_of_code v) ≡ v
unfolding status_of_code status_code
status_code-status_of_code v h = ground arith
