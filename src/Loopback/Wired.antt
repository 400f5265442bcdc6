-- ===== src/Loopback/Wired.antt =====
-- examples/spi_dma_loopback.rs: the test over a DMA whose output is wired to its input.
use wiznet_rs.Prelude.{
  ℕ, zero, suc, ◌+◌, ◌%◌, ◌^◌, ◌≤◌, ◌<◌, ◌≡◌, refl, ◌∙◌, inl, inr, length-set, List, [], ◌∷◌, ◌++◌,
  Option, none, some, arith, length, take, drop, length-take, length-drop, length-append, get_or,
  replicate, length-replicate,
}
use wiznet_rs.Exec.{ok}
use wiznet_rs.Loopback.Check.{
  Report, sentinel, sizes, buffer_len, fill_pattern, fill_sentinel, verify,
}
use wiznet_rs.Loopback.Run.{
  SliceN, shown, Hal, Shared, Bench, arm, sleep, dma1_channel2, collect, exercise, exercise_all,
  blink, iteration,
}
use wiznet_rs.Loopback.Verdict.{Agree, verify_lem}

-- What a full-duplex transfer does when MISO is wired to MOSI: both windows come back, the
-- shown bytes of the first hold what was shown of the second.
pub record Wired (hal : Hal) : Type 0 where
  pub tx_back : (d : hal.Dma) (rx tx : SliceN) → (hal.wait (hal.read_write d rx tx)).0.1 ≡ tx
  pub looped :
      (d : hal.Dma) (rx tx : SliceN)
      → (shown rx).1 ≡ (shown tx).1
      → (shown rx).1 ≤ length (shown rx).0
      → (shown tx).1 ≤ length (shown tx).0
      → (shown (hal.wait (hal.read_write d rx tx)).0.0).0
        ≡ take (shown tx).1 (shown tx).0 ++ drop (shown rx).1 (shown rx).0

-- The DMA and both buffers are at hand.
abbrev pub Whole : {D : Type 0} → Option D → Option (List ℕ) → Option (List ℕ) → Type 0
Whole (some d) (some rx) (some tx) = (length rx ≡ buffer_len) × (length tx ≡ buffer_len)
Whole _ _ _ = ⊥

get_or-take-append :
    (n j : ℕ) (xs ys : List ℕ)
    → n ≤ length xs
    → j < n
    → get_or (take n xs ++ ys) j 0 ≡ get_or xs j 0
get_or-take-append n j [] ys h k = absurd (omega (arith, h, k))
get_or-take-append zero j (x ∷ xs) ys h k = absurd (omega (arith, k))
get_or-take-append (suc n) zero (x ∷ xs) ys h k = refl
get_or-take-append (suc n) (suc j) (x ∷ xs) ys h k =
    get_or-take-append n j xs ys (omega (arith, h)) (omega (arith, k))

length-fill_pattern :
    (left i seed : ℕ) (txb : List ℕ) → length (fill_pattern left i seed txb) ≡ length txb
unfolding fill_pattern
length-fill_pattern zero i seed txb = refl
length-fill_pattern (suc left) i seed txb =
    length-fill_pattern left (i + 1) seed _ ∙ length-set txb i _

length-fill_sentinel :
    (len : ℕ) (rxb : List ℕ) → len ≤ length rxb → length (fill_sentinel len rxb) ≡ length rxb
unfolding fill_sentinel
length-fill_sentinel len rxb h = omega (
  arith,
  h,
  length-append (replicate len sentinel) (drop len rxb),
  length-replicate len sentinel,
  length-drop len rxb,
)

verify-Agree :
    (len : ℕ) (txb rxb : List ℕ) (r : Report) → Agree len txb rxb → verify len txb rxb r ≡ r
verify-Agree len txb rxb r agree = elim (verify_lem len txb rxb r) [
  | inl (_, same) ↦ same
  | inr (k, small, _, differ, _) ↦ absurd (differ (agree k small))
]

module _ (hal : Hal) (wired : Wired hal) where
  exercise_on :
      (seed len : ℕ) (shared : Shared hal) (od : Option hal.Dma) (orx otx : Option (List ℕ))
      (report : Report) (led : hal.Pin)
      → len ≤ buffer_len
      → Whole od orx otx
      → let (r, b) =
          exercise hal seed len (record {
            shared = shared;
            dma = od;
            rx = orx;
            tx = otx;
            report = report;
            led = led;
          }) in
        (r ≡ ok tt) × Whole b.dma b.rx b.tx × (b.report ≡ report)
  unfolding exercise arm sleep dma1_channel2 collect shown
  exercise_on seed len shared none orx otx report led h w = absurd w
  exercise_on seed len shared (some d) none otx report led h w = absurd w
  exercise_on seed len shared (some d) (some rxb) none report led h w = absurd w
  exercise_on seed len shared (some d) (some rxb) (some txb) report led h (rs, ts) =
      let rx : SliceN = record { buf = fill_sentinel len rxb; n = len } in
      let tx : SliceN = record { buf = fill_pattern len 0 seed txb; n = len } in
      let txs : length tx.buf ≡ length txb = length-fill_pattern len 0 seed txb in
      let rxs : length rx.buf ≡ length rxb = length-fill_sentinel len rxb (omega (arith, h, rs)) in
      let back = wired.tx_back d rx tx in
      let got = wired.looped d rx tx refl (omega (arith, rxs, rs, h)) (omega (arith, txs, ts, h)) in
      let rest : List ℕ = drop len rx.buf in
      rw (back, got)
        (
          refl,
          (
            omega (
              arith,
              length-append (take len tx.buf) rest,
              length-take len tx.buf,
              length-drop len rx.buf,
              rxs,
              txs,
              rs,
              ts,
              h,
            ),
            omega (arith, txs, ts),
          ),
          verify-Agree len tx.buf (take len tx.buf ++ rest) report
              (λ j k. get_or-take-append len j tx.buf rest (omega (arith, txs, ts, h)) k),
        )

  -- Every size fits the buffers.
  abbrev AllFit : List ℕ → Type 0
  AllFit [] = Unit
  AllFit (len ∷ lens) = (len ≤ buffer_len) × AllFit lens

  exercise_all-Whole :
      (seed : ℕ) (lens : List ℕ) (b : Bench hal)
      → AllFit lens
      → Whole b.dma b.rx b.tx
      → let (r, c) = exercise_all hal seed lens b in
        (r ≡ ok tt) × Whole c.dma c.rx c.tx × (c.report ≡ b.report)
  unfolding exercise_all
  exercise_all-Whole seed [] b h w = (refl, w, refl)
  exercise_all-Whole seed (len ∷ lens) b h w =
      let (r, w', same) = exercise_on seed len b.shared b.dma b.rx b.tx b.report b.led h.0 w in
      let (r', w'', same') = exercise_all-Whole seed lens (exercise hal seed len b).1 h.1 w' in
      rw r (r', w'', same' ∙ same)

  -- With the output wired to the input, and the DMA and both buffers at hand, a round of the
  -- self-test gets through all its transfers, with the DMA and the buffers at hand again, and
  -- records no failure: the report changes in the count of rounds only.
  pub iteration_lem :
      (sysclk_hz : ℕ) (b : Bench hal)
      → Whole b.dma b.rx b.tx
      → let (r, c) = iteration hal sysclk_hz b in
        (r ≡ ok tt)
        × Whole c.dma c.rx c.tx
        × (c.report ≡ record b.report { iterations = (b.report.iterations + 1) % 2 ^ 32 })
  unfolding iteration blink
  iteration_lem sysclk_hz b w =
      let n = (b.report.iterations + 1) % 2 ^ 32 in
      let (r, w', same) =
        exercise_all-Whole (n % 2 ^ 8) sizes
          (record b { report = record b.report { iterations = n } })
          (omega arith, (omega arith, (omega arith, (omega arith, tt)))) w in
      rw r (refl, w', same)
