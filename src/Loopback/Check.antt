-- ===== src/Loopback/Check.antt =====
-- examples/spi_dma_loopback.rs: the pattern that goes out, and the check of what comes back.
use wiznet_rs.Prelude.{
  ℕ, zero, suc, ◌+◌, ◌*◌, ◌%◌, ◌^◌, min, List, [], ◌∷◌, ◌++◌, ◌==◌, if◌then◌else◌, get_or, set,
  take, drop, replicate,
}

abbrev pub snap : ℕ
snap = 32

abbrev pub buffer_len : ℕ
buffer_len = 512

abbrev pub sentinel : ℕ
sentinel = 0xFF

pub record Report : Type 0 where
  pub iterations : ℕ
  pub fails : ℕ
  pub last_fail_len : ℕ
  pub last_fail_idx : ℕ
  pub last_expected : ℕ
  pub last_got : ℕ
  pub tx_snap : List ℕ
  pub rx_snap : List ℕ

abbrev pub default : Report
default = record {
  iterations = 0;
  fails = 0;
  last_fail_len = 0;
  last_fail_idx = 0;
  last_expected = 0;
  last_got = 0;
  tx_snap = replicate snap 0;
  rx_snap = replicate snap 0;
}

abbrev pub sizes : List ℕ
sizes = 1 ∷ 3 ∷ 17 ∷ 512 ∷ []

-- `(i as u8).wrapping_mul(0x1b).wrapping_add(seed)`
unfoldable pub pattern : (seed i : ℕ) → ℕ
pattern seed i = (i % 2 ^ 8 * 0x1b % 2 ^ 8 + seed) % 2 ^ 8

-- `for i in 0..len { txb[i] = … }`, with `left` indices to go
unfoldable pub fill_pattern : (left i seed : ℕ) → List ℕ → List ℕ
unfolding pattern
fill_pattern zero i seed txb = txb
fill_pattern (suc left) i seed txb = fill_pattern left (i + 1) seed (set txb i (pattern seed i))

-- `rxb[..len].fill(0xFF)`
unfoldable pub fill_sentinel : ℕ → List ℕ → List ℕ
fill_sentinel len rxb = replicate len sentinel ++ drop len rxb

-- `snap[..n].copy_from_slice(&buf[..n])`
abbrev snapshot : ℕ → List ℕ → List ℕ → List ℕ
snapshot n to from = take n from ++ drop n to

unfoldable pub latch : (len i : ℕ) → (txb rxb : List ℕ) → Report → Report
latch len i txb rxb r = record r {
  fails = (r.fails + 1) % 2 ^ 32;
  last_fail_len = len;
  last_fail_idx = i;
  last_expected = get_or txb i 0;
  last_got = get_or rxb i 0;
  tx_snap = snapshot (min len snap) r.tx_snap txb;
  rx_snap = snapshot (min len snap) r.rx_snap rxb;
}

-- `for i in 0..len { if rxb[i] != txb[i] { …; break; } }`
unfoldable pub verify_from : (left i len : ℕ) → (txb rxb : List ℕ) → Report → Report
unfolding latch
verify_from zero i len txb rxb r = r
verify_from (suc left) i len txb rxb r =
    let rest = verify_from left (i + 1) len txb rxb r in
    if get_or rxb i 0 == get_or txb i 0 then rest else latch len i txb rxb r

unfoldable pub verify : ℕ → (txb rxb : List ℕ) → Report → Report
unfolding verify_from
verify len txb rxb r = verify_from len 0 len txb rxb r
