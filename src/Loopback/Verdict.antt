-- ===== src/Loopback/Verdict.antt =====
-- examples/spi_dma_loopback.rs: what the check reports.
use native.Mathlib.Decide.{dec_lt}
use wiznet_rs.Prelude.{
  ℕ, zero, suc, ◌+◌, ◌%◌, ◌^◌, ◌++◌, min, take, drop, ◌<◌, ◌≡◌, ◌≢◌, refl, subst, ◌⊎◌, inl, inr,
  List, arith, ◌==◌, Bool-cases, get_or,
}
use wiznet_rs.Loopback.Check.{Report, latch, verify_from, verify}

-- The first `n` bytes came back as they went out.
abbrev pub Agree : ℕ → (txb rxb : List ℕ) → Type 0
Agree n txb rxb = (j : ℕ) → j < n → get_or rxb j 0 ≡ get_or txb j 0

-- What the report `r'` keeps of a failure at the index `k` of a transfer of `len` bytes, on top of
-- `r`: the count of failures is a 32-bit number, and the copies have room for 32 bytes, of which a
-- shorter transfer leaves the rest.
pub record Recorded (len k : ℕ) (txb rxb : List ℕ) (r r' : Report) : Type 0 where
  pub counted : r'.fails ≡ (r.fails + 1) % 2 ^ 32
  pub length_kept : r'.last_fail_len ≡ len
  pub index_kept : r'.last_fail_idx ≡ k
  pub sent_kept : r'.last_expected ≡ get_or txb k 0
  pub got_kept : r'.last_got ≡ get_or rxb k 0
  pub sent_start : r'.tx_snap ≡ take (min len 32) txb ++ drop (min len 32) r.tx_snap
  pub got_start : r'.rx_snap ≡ take (min len 32) rxb ++ drop (min len 32) r.rx_snap
  pub rounds_same : r'.iterations ≡ r.iterations

-- All bytes agree and nothing is reported, or the first that does not is.
abbrev pub Verdict : ℕ → (txb rxb : List ℕ) → (before after : Report) → Type 0
Verdict len txb rxb r r' =
    (Agree len txb rxb × (r' ≡ r))
    ⊎ ((k : ℕ) × (k < len)
        × Agree k txb rxb
        × (get_or rxb k 0 ≢ get_or txb k 0)
        × Recorded len k txb rxb r r')

latch-Recorded :
    (len k : ℕ) (txb rxb : List ℕ) (r : Report) → Recorded len k txb rxb r (latch len k txb rxb r)
unfolding latch
latch-Recorded len k txb rxb r = record {
  counted = refl;
  length_kept = refl;
  index_kept = refl;
  sent_kept = refl;
  got_kept = refl;
  sent_start = refl;
  got_start = refl;
  rounds_same = refl;
}

module _ (len : ℕ) (txb rxb : List ℕ) (r : Report) where
  one_more : (i : ℕ) → Agree i txb rxb → get_or rxb i 0 ≡ get_or txb i 0 → Agree (i + 1) txb rxb
  one_more i agree same j h = elim (dec_lt j i) [
    | yes lt ↦ agree j lt
    | no n ↦ subst (λ k. get_or rxb k 0 ≡ get_or txb k 0) {x = i} {y = j} (omega (arith, n, h)) same
  ]

  verify_from-Verdict :
      (left i : ℕ)
      → i + left ≡ len
      → Agree i txb rxb
      → Verdict len txb rxb r (verify_from left i len txb rxb r)
  unfolding verify_from
  verify_from-Verdict zero i e agree =
      inl (subst (λ k. Agree k txb rxb) {x = i} {y = len} (omega (arith, e)) agree, refl)
  verify_from-Verdict (suc left) i e agree = elim (Bool-cases (get_or rxb i 0 == get_or txb i 0)) [
    | inl same ↦
        rw same
          (verify_from-Verdict left (i + 1) (omega (arith, e)) (one_more i agree (ground arith)))
    | inr differ ↦
        rw differ (inr (i, omega (arith, e), agree, ground arith, latch-Recorded len i txb rxb r))
  ]

  -- The check of `len` bytes either finds that all of them came back as they went out and leaves
  -- the report as it was, or counts one failure in 32 bits and keeps the length, the index of the
  -- first byte that differs, that byte as sent and as received, and the first 32 bytes at most of
  -- both buffers; the count of rounds stays.
  pub verify_lem : Verdict len txb rxb r (verify len txb rxb r)
  unfolding verify
  verify_lem = verify_from-Verdict len 0 (omega arith) (λ j h. absurd (omega (arith, h)))
