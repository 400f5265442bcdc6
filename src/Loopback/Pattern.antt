-- ===== src/Loopback/Pattern.antt =====
-- examples/spi_dma_loopback.rs: what the pattern and the sentinel tell apart.
use native.Mathlib.Decide.{dec_lt}
use wiznet_rs.Prelude.{
  ℕ, zero, suc, ◌+◌, ◌%◌, ◌^◌, ◌≤◌, ◌<◌, ◌≡◌, ◌↔◌, refl, sym, ap, ◌∙◌, List, ◌++◌, arith, get_or,
  set, length, length-set, get_or-set_self, get_or-set_ne, replicate, drop,
}
use wiznet_rs.Loopback.Check.{pattern, fill_pattern, sentinel, fill_sentinel}
use wiznet_rs.Loopback.Verdict.{Agree}

-- Two bytes of the pattern of one round are equal just if they are a multiple of 256 apart.
pattern-injective : (seed i j : ℕ) → pattern seed i ≡ pattern seed j → i % 2 ^ 8 ≡ j % 2 ^ 8
unfolding pattern
pattern-injective seed i j e = omega (arith, e)

before-fill :
    (left i seed : ℕ) (txb : List ℕ) (j : ℕ)
    → j < i
    → get_or (fill_pattern left i seed txb) j 0 ≡ get_or txb j 0
unfolding fill_pattern
before-fill zero i seed txb j h = refl
before-fill (suc left) i seed txb j h =
    before-fill left (i + 1) seed (set txb i (pattern seed i)) j (omega (arith, h))
    ∙ get_or-set_ne txb i j (pattern seed i) 0 (λ e. omega (arith, e, h))

get_or-fill_pattern :
    (left i seed : ℕ) (txb : List ℕ) (j : ℕ)
    → i + left ≤ length txb
    → i ≤ j
    → j < i + left
    → get_or (fill_pattern left i seed txb) j 0 ≡ pattern seed j
unfolding fill_pattern
get_or-fill_pattern zero i seed txb j big low high = absurd (omega (arith, low, high))
get_or-fill_pattern (suc left) i seed txb j big low high =
    let txb' : List ℕ = set txb i (pattern seed i) in
    elim (dec_lt i j) [
      | yes lt ↦
          get_or-fill_pattern left (i + 1) seed txb' j
            (omega (arith, big, length-set txb i (pattern seed i))) (omega (arith, lt))
            (omega (arith, high))
      | no n ↦
          let e : j ≡ i = omega (arith, n, low) in
          before-fill left (i + 1) seed txb' j (omega (arith, e))
          ∙ ap (λ k. get_or txb' k 0) e
          ∙ get_or-set_self txb i (pattern seed i) 0 (omega (arith, big))
          ∙ ap (pattern seed) (sym e)
    ]

get_or-replicate : (n j x : ℕ) (ys : List ℕ) → j < n → get_or (replicate n x ++ ys) j 0 ≡ x
get_or-replicate zero j x ys h = absurd (omega (arith, h))
get_or-replicate (suc n) zero x ys h = refl
get_or-replicate (suc n) (suc j) x ys h = get_or-replicate n j x ys (omega (arith, h))

module _ (len seed : ℕ) (txb rxb : List ℕ) (fits : len ≤ length txb) where
  -- A byte of the sentinel that agrees with the pattern.
  agrees :
      (j : ℕ)
      → j < len
      → get_or (fill_sentinel len rxb) j 0 ≡ get_or (fill_pattern len 0 seed txb) j 0
      → sentinel ≡ pattern seed j
  unfolding fill_sentinel
  agrees j h e =
      sym (get_or-replicate len j sentinel (drop len rxb) h)
      ∙ e
      ∙ get_or-fill_pattern len 0 seed txb j (omega (arith, fits)) (omega arith) (omega (arith, h))

  -- A transfer of at least one byte, within the transmit buffer, that writes nothing to the
  -- receive buffer passes the check of the self-test just if it has one byte and the round's seed
  -- is 0xFF, the sentinel itself.
  pub silent_transfer :
      0 < len
      → Agree len (fill_pattern len 0 seed txb) (fill_sentinel len rxb)
        ↔ ((len ≡ 1) × (seed % 2 ^ 8 ≡ sentinel))
  unfolding pattern fill_sentinel
  silent_transfer pos = (
    λ agree. elim (dec_lt 1 len) [
      | yes two ↦
          let zeroth = agrees 0 pos (agree 0 pos) in
          let first = agrees 1 two (agree 1 two) in absurd (omega (arith, zeroth, first))
      | no one ↦ (omega (arith, one, pos), omega (arith, agrees 0 pos (agree 0 pos)))
    ],
    λ (one, ff) j h.
        get_or-replicate len j sentinel (drop len rxb) h
        ∙ omega (arith, one, ff, h)
        ∙ sym (
            get_or-fill_pattern len 0 seed txb j (omega (arith, fits)) (omega arith)
              (omega (arith, h))),
  )
