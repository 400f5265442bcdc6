-- ===== src/Ring/Window.antt =====
-- wiznet-rs/src/spsc_ring.rs: the memory of a ring read and written at running counters, round the
-- end at `cap`.
use native.Mathlib.Nat.{mod-eq_of_lt, add-mod}
use wiznet_rs.Prelude.{
  ℕ, zero, suc, ◌+◌, ◌%◌, ◌≤◌, ◌<◌, ◌≡◌, refl, sym, ap, ap₂, ◌∙◌, List, [], ◌∷◌, ◌++◌, arith,
  length, get_or, set, drop, length-set,
}
use wiznet_rs.Ring.{copy_to, bytes_at}

module _ (cap : ℕ) where
  -- the `n` bytes at the counters `s`, `s + 1`, …
  abbrev pub span : List ℕ → ℕ → ℕ → List ℕ
  span mem s zero = []
  span mem s (suc n) = get_or mem (s % cap) 0 ∷ span mem (s + 1) n

  -- the bytes stored at the counters `s`, `s + 1`, …
  abbrev pub store : List ℕ → ℕ → List ℕ → List ℕ
  store mem s [] = mem
  store mem s (x ∷ xs) = store (set mem (s % cap) x) (s + 1) xs

pub length-span : (cap : ℕ) (mem : List ℕ) (s n : ℕ) → length (span cap mem s n) ≡ n
length-span cap mem s zero = refl
length-span cap mem s (suc n) = ap suc (length-span cap mem (s + 1) n)

pub length-store :
    (cap : ℕ) (mem : List ℕ) (s : ℕ) (xs : List ℕ) → length (store cap mem s xs) ≡ length mem
length-store cap mem s [] = refl
length-store cap mem s (x ∷ xs) =
    length-store cap (set mem (s % cap) x) (s + 1) xs ∙ length-set mem (s % cap) x

pub suc_congr : (cap s t : ℕ) → s % cap ≡ t % cap → (s + 1) % cap ≡ (t + 1) % cap
suc_congr cap s t e = add-mod s 1 cap ∙ ap (λ k. (k + 1 % cap) % cap) e ∙ sym (add-mod t 1 cap)

-- Counters matter only through their index.
pub span_congr :
    (cap : ℕ) (mem : List ℕ) (s t n : ℕ) → s % cap ≡ t % cap → span cap mem s n ≡ span cap mem t n
span_congr cap mem s t zero e = refl
span_congr cap mem s t (suc n) e =
    ap₂ ◌∷◌ (ap (λ i. get_or mem i 0) e)
      (span_congr cap mem (s + 1) (t + 1) n (suc_congr cap s t e))

pub store_congr :
    (cap : ℕ) (mem : List ℕ) (s t : ℕ) (xs : List ℕ)
    → s % cap ≡ t % cap
    → store cap mem s xs ≡ store cap mem t xs
store_congr cap mem s t [] e = refl
store_congr cap mem s t (x ∷ xs) e =
    ap (λ i. store cap (set mem i x) (s + 1) xs) e
    ∙ store_congr cap (set mem (t % cap) x) (s + 1) (t + 1) xs (suc_congr cap s t e)

pub span_add :
    (cap : ℕ) (mem : List ℕ) (s a b : ℕ)
    → span cap mem s (a + b) ≡ span cap mem s a ++ span cap mem (s + a) b
span_add cap mem s zero b =
    ap (span cap mem s) {x = zero + b} {y = b} (omega arith)
    ∙ ap (λ k. span cap mem k b) {x = s} {y = s + zero} (omega arith)
span_add cap mem s (suc a) b =
    ap (span cap mem s) {x = suc a + b} {y = suc (a + b)} (omega arith)
    ∙ ap (λ ys. get_or mem (s % cap) 0 ∷ ys)
        (span_add cap mem (s + 1) a b
          ∙ ap (λ k. span cap mem (s + 1) a ++ span cap mem k b) {x = s + 1 + a} {y = s + suc a}
              (omega arith))

pub store-append :
    (cap : ℕ) (mem : List ℕ) (s : ℕ) (xs ys : List ℕ)
    → store cap mem s (xs ++ ys) ≡ store cap (store cap mem s xs) (s + length xs) ys
store-append cap mem s [] ys = ap (λ k. store cap mem k ys) {x = s} {y = s + 0} (omega arith)
store-append cap mem s (x ∷ xs) ys =
    store-append cap (set mem (s % cap) x) (s + 1) xs ys
    ∙ ap (λ k. store cap (store cap (set mem (s % cap) x) (s + 1) xs) k ys) {x = s + 1 + length xs}
        {y = s + suc (length xs)} (omega arith)

-- Away from the end a span is the memory's own bytes, and a store is the plain copy.
drop-cons : (mem : List ℕ) (i : ℕ) → i < length mem → drop i mem ≡ get_or mem i 0 ∷ drop (i + 1) mem
drop-cons [] i h = absurd (omega arith)
drop-cons (x ∷ mem) zero h = ap (λ k. x ∷ drop k mem) {x = 0} {y = 0} refl
drop-cons (x ∷ mem) (suc i) h =
    drop-cons mem i (omega arith)
    ∙ ap (λ k. get_or mem i 0 ∷ drop k (x ∷ mem)) {x = suc (i + 1)} {y = suc i + 1} (omega arith)

next_index : (cap s i : ℕ) → s % cap ≡ i → suc i < cap → (s + 1) % cap ≡ i + 1
next_index cap s i e h =
    suc_congr cap s i (e ∙ sym (mod-eq_of_lt (omega arith))) ∙ mod-eq_of_lt (omega arith)

pub span-contiguous :
    (cap : ℕ) (mem : List ℕ) (s i n : ℕ)
    → s % cap ≡ i
    → i + n ≤ cap
    → cap ≤ length mem
    → span cap mem s n ≡ bytes_at mem i n
span-contiguous cap mem s i zero e h b = refl
span-contiguous cap mem s i (suc zero) e h b = rw (e, drop-cons mem i (omega arith))
span-contiguous cap mem s i (suc (suc n)) e h b =
    rw (e, drop-cons mem i (omega arith))
      (ap (λ ys. get_or mem i 0 ∷ ys)
        (span-contiguous cap mem (s + 1) (i + 1) (suc n) (next_index cap s i e (omega arith))
          (omega arith) b))

pub store-contiguous :
    (cap : ℕ) (mem : List ℕ) (s i : ℕ) (xs : List ℕ)
    → s % cap ≡ i
    → i + length xs ≤ cap
    → store cap mem s xs ≡ copy_to mem i xs
store-contiguous cap mem s i [] e h = refl
store-contiguous cap mem s i (x ∷ []) e h = rw e
store-contiguous cap mem s i (x ∷ y ∷ ys) e h =
    ap (λ k. store cap (set mem k x) (s + 1) (y ∷ ys)) e
    ∙ store-contiguous cap (set mem i x) (s + 1) (i + 1) (y ∷ ys)
        (next_index cap s i e (omega arith)) (omega arith)
