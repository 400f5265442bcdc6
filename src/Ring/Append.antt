-- ===== src/Ring/Append.antt =====
-- wiznet-rs/src/spsc_ring.rs: stores behind the stored bytes.
use native.Mathlib.Decide.{dec_lt}
use native.Mathlib.Nat.{mod-eq_of_lt, mod-eq-sub-mod, mod-add-mod, mod-lt}
use wiznet_rs.Prelude.{
  ℕ, zero, suc, ◌+◌, ◌-◌, ◌%◌, ◌≤◌, ◌<◌, ◌≡◌, refl, sym, ap, ap₂, ◌∙◌, ◌≢◌, List, [], ◌∷◌, ◌++◌,
  arith, length, get_or, set, length-set, get_or-set_self, get_or-set_ne, append-nil, append_assoc,
}
use wiznet_rs.Ring.Window.{span, store, span_add}

-- Fewer than `cap` steps round the memory do not come back to the same index.
pub index_ne : (cap t d : ℕ) → 0 < d → d < cap → (t + d) % cap ≢ t % cap
index_ne cap t d pos small e =
    let r = t % cap in
    let step : (r + d) % cap ≡ r = mod-add-mod t cap d ∙ e in
    let bound : r < cap = mod-lt t (omega arith) in
    elim (dec_lt (r + d) cap) [
      | yes p ↦ omega (arith, mod-eq_of_lt p, step)
      | no p ↦ omega (
        arith,
        step,
        mod-eq-sub-mod {n = r + d} {m = cap} (omega arith),
        mod-eq_of_lt {n = r + d - cap} {m = cap} (omega arith),
      )
    ]

span-set_away :
    (cap : ℕ) (mem : List ℕ) (t n s x : ℕ)
    → t + n ≤ s
    → s < t + cap
    → span cap (set mem (s % cap) x) t n ≡ span cap mem t n
span-set_away cap mem t zero s x h b = refl
span-set_away cap mem t (suc n) s x h b =
    ap₂ ◌∷◌ (get_or-set_ne mem (s % cap) (t % cap) x 0 apart)
      (span-set_away cap mem (t + 1) n s x (omega arith) (omega arith))
  where
    apart : s % cap ≢ t % cap
    apart e =
        index_ne cap t (s - t) (omega arith) (omega arith)
          (ap (λ k. k % cap) {x = t + (s - t)} {y = s} (omega arith) ∙ e)

-- One byte more.
span-set_next :
    (cap : ℕ) (mem : List ℕ) (h n s x : ℕ)
    → n < cap
    → cap ≤ length mem
    → s ≡ h + n
    → span cap (set mem (s % cap) x) h (n + 1) ≡ span cap mem h n ++ x ∷ []
span-set_next cap mem h n s x b big e =
    span_add cap (set mem (s % cap) x) h n 1
    ∙ ap₂ ◌++◌ (span-set_away cap mem h n s x (omega arith) (omega arith)) (
        ap (λ y. y ∷ [])
          (ap (λ k. get_or (set mem (s % cap) x) (k % cap) 0) (sym e)
            ∙ get_or-set_self mem (s % cap) x 0 inside))
  where
    inside : s % cap < length mem
    inside = omega (arith, mod-lt s {m = cap} (omega arith))

-- A store just past a span extends the span by the bytes stored.
pub span-store :
    (cap : ℕ) (mem : List ℕ) (h n s : ℕ) (xs : List ℕ)
    → n + length xs ≤ cap
    → cap ≤ length mem
    → s ≡ h + n
    → span cap (store cap mem s xs) h (n + length xs) ≡ span cap mem h n ++ xs
span-store cap mem h n s [] b big e =
    ap (span cap mem h) {x = n + 0} {y = n} (omega arith) ∙ sym (append-nil _)
span-store cap mem h n s (x ∷ xs) b big e =
    ap (span cap (store cap mem' (s + 1) xs) h) {x = n + suc (length xs)} {y = n + 1 + length xs}
      (omega arith)
    ∙ span-store cap mem' h (n + 1) (s + 1) xs (omega arith)
        (omega (arith, length-set mem (s % cap) x)) (omega arith)
    ∙ ap (λ ys. ys ++ xs) (span-set_next cap mem h n s x (omega arith) big e)
    ∙ append_assoc (span cap mem h n) (x ∷ []) xs
  where
    mem' : List ℕ
    mem' = set mem (s % cap) x

-- A store leaves alone every span that ends before it and starts less than `cap` before its end.
pub span-store_away :
    (cap : ℕ) (mem : List ℕ) (t n s : ℕ) (xs : List ℕ)
    → t + n ≤ s
    → s + length xs ≤ t + cap
    → span cap (store cap mem s xs) t n ≡ span cap mem t n
span-store_away cap mem t n s [] h b = refl
span-store_away cap mem t n s (x ∷ xs) h b =
    span-store_away cap (set mem (s % cap) x) t n (s + 1) xs (omega arith) (omega arith)
    ∙ span-set_away cap mem t n s x h (omega arith)
