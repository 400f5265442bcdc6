-- ===== src/Ring/Copies.antt =====
-- wiznet-rs/src/spsc_ring.rs: the two copies of an operation as one store or one span.
use native.Mathlib.Nat.{mod-add-mod, mod_self, mod-lt}
use wiznet_rs.Prelude.{
  ℕ, suc, ◌+◌, ◌-◌, ◌%◌, ◌≤◌, ◌<◌, min, ◌≡◌, refl, sym, ap, ap₂, ◌∙◌, List, [], ◌∷◌, ◌++◌, inl, inr,
  arith, ltb, Bool-cases, length, set, take, drop, take-add, length-take, length-drop,
}
use wiznet_rs.Ring.{SpscRing, copy_to, bytes_at, copy_in, copy_out}
use wiznet_rs.Ring.Window.{
  span, store, length-span, span_add, store-append, span-contiguous, store-contiguous,
}
use wiznet_rs.Ring.Bounds.{IsValid}

pub copy_to-append :
    (mem : List ℕ) (i : ℕ) (xs ys : List ℕ)
    → copy_to mem i (xs ++ ys) ≡ copy_to (copy_to mem i xs) (i + length xs) ys
copy_to-append mem i [] ys = ap (λ k. copy_to mem k ys) {x = i} {y = i + 0} (omega arith)
copy_to-append mem i (x ∷ xs) ys =
    copy_to-append (set mem i x) (i + 1) xs ys
    ∙ ap (λ k. copy_to (copy_to (set mem i x) (i + 1) xs) k ys) {x = i + 1 + length xs}
        {y = i + suc (length xs)} (omega arith)

copy_to_cons :
    (y : ℕ) (mem : List ℕ) (i : ℕ) (xs : List ℕ)
    → copy_to (y ∷ mem) (suc i) xs ≡ y ∷ copy_to mem i xs
copy_to_cons y mem i [] = refl
copy_to_cons y mem i (x ∷ xs) =
    ap (λ k. copy_to (y ∷ set mem i x) k xs) {x = suc i + 1} {y = suc (i + 1)} (omega arith)
    ∙ copy_to_cons y (set mem i x) (i + 1) xs

-- A copy to the start replaces the first bytes.
pub copy_to_start :
    (mem xs : List ℕ) → length xs ≤ length mem → copy_to mem 0 xs ≡ xs ++ drop (length xs) mem
copy_to_start mem [] h = refl
copy_to_start [] (x ∷ xs) h = absurd (omega arith)
copy_to_start (y ∷ mem) (x ∷ xs) h =
    ap (λ k. copy_to (x ∷ mem) k xs) {x = 0 + 1} {y = suc 0} (omega arith)
    ∙ copy_to_cons x mem 0 xs
    ∙ ap (λ ys. x ∷ ys) (copy_to_start mem xs (omega arith))

-- From the end of the buffer the index comes back to 0.
seam : (cap s f : ℕ) → 0 < cap → f ≡ cap - s % cap → (s + f) % cap ≡ 0
seam cap s f pos e =
    sym (mod-add-mod s cap f)
    ∙ ap (λ k. k % cap) {x = s % cap + f} {y = cap} (omega (arith, mod-lt s pos))
    ∙ mod_self cap

-- A store of `n` bytes that passes the end of the buffer is two copies.
store_two :
    (cap : ℕ) (mem : List ℕ) (s f n : ℕ) (xs : List ℕ)
    → 0 < cap
    → f ≡ cap - s % cap
    → f < n
    → n ≤ length xs
    → n ≤ cap
    → store cap mem s (take n xs)
      ≡ copy_to (copy_to mem (s % cap) (take f xs)) 0 (bytes_at xs f (n - f))
store_two cap mem s f n xs pos e lt fits small =
    ap (λ k. store cap mem s (take k xs)) {x = n} {y = f + (n - f)} (omega arith)
    ∙ ap (store cap mem s) (take-add f (n - f) xs)
    ∙ store-append cap mem s (take f xs) (take (n - f) (drop f xs))
    ∙ ap₂ (λ m k. store cap m k (take (n - f) (drop f xs))) first reach
    ∙ store-contiguous cap (copy_to mem (s % cap) (take f xs)) (s + f) 0 (take (n - f) (drop f xs))
        (seam cap s f pos e) (omega (arith, length-take (n - f) (drop f xs)))
  where
    index_in : s % cap < cap
    index_in = mod-lt s pos

    first : store cap mem s (take f xs) ≡ copy_to mem (s % cap) (take f xs)
    first =
        store-contiguous cap mem s (s % cap) (take f xs) refl
          (omega (arith, length-take f xs, index_in))

    reach : s + length (take f xs) ≡ s + f
    reach = omega (arith, length-take f xs)

-- A span of `n` bytes that passes the end of the buffer is two runs of it.
span_two :
    (cap : ℕ) (mem : List ℕ) (s f n : ℕ)
    → 0 < cap
    → length mem ≡ cap
    → f ≡ cap - s % cap
    → f < n
    → n ≤ cap
    → span cap mem s n ≡ bytes_at mem (s % cap) f ++ bytes_at mem 0 (n - f)
span_two cap mem s f n pos sized e lt small =
    ap (span cap mem s) {x = n} {y = f + (n - f)} (omega arith)
    ∙ span_add cap mem s f (n - f)
    ∙ ap₂ ◌++◌
        (span-contiguous cap mem s (s % cap) f refl (omega (arith, mod-lt s pos)) (omega arith))
        (span-contiguous cap mem (s + f) 0 (n - f) (seam cap s f pos e) (omega arith) (omega arith))

module _ (r : SpscRing) (v : IsValid r) where
  -- `write` copies the first `n` bytes of `src` to the counters from `tail` on.
  pub copy_in-store :
      (src : List ℕ) (n : ℕ)
      → n ≤ length src
      → n ≤ r.cap
      → copy_in r src n ≡ store r.cap r.buf r.tail (take n src)
  unfolding copy_in
  copy_in-store src n fits small = elim (Bool-cases (ltb first n)) [
    | inl split ↦ rw split (sym (pieces (ground arith)))
    | inr whole ↦ rw whole (one (ground arith))
  ]
    where
      first : ℕ
      first = min n (r.cap - r.tail % r.cap)

      start_in : r.tail % r.cap < r.cap
      start_in = mod-lt r.tail v.positive

      one :
          first ≡ n
          → copy_to r.buf (r.tail % r.cap) (take first src) ≡ store r.cap r.buf r.tail (take n src)
      one e =
          sym (
            store-contiguous r.cap r.buf r.tail (r.tail % r.cap) (take first src) refl
              (omega (arith, length-take first src, start_in)))
          ∙ ap (λ k. store r.cap r.buf r.tail (take k src)) e

      pieces :
          first < n
          → store r.cap r.buf r.tail (take n src)
            ≡ copy_to
                (copy_to r.buf (r.tail % r.cap) (take first src))
                0
                (bytes_at src first (n - first))
      pieces lt = store_two r.cap r.buf r.tail first n src v.positive (omega arith) lt fits small

  -- `read` and `peek` copy the bytes at the counters from `head` on to the start of `dst`.
  pub copy_out-span :
      (dst : List ℕ) (n : ℕ)
      → n ≤ length dst
      → n ≤ r.cap
      → copy_out r dst n ≡ span r.cap r.buf r.head n ++ drop n dst
  unfolding copy_out
  copy_out-span dst n fits small = elim (Bool-cases (ltb first n)) [
    | inl split ↦ rw split (pieces (ground arith))
    | inr whole ↦ rw whole (one (ground arith))
  ]
    where
      first : ℕ
      first = min n (r.cap - r.head % r.cap)

      start_in : r.head % r.cap < r.cap
      start_in = mod-lt r.head v.positive

      target :
          (k : ℕ)
          → k ≡ n
          → copy_to dst 0 (span r.cap r.buf r.head k) ≡ span r.cap r.buf r.head n ++ drop n dst
      target k e =
          ap (λ m. copy_to dst 0 (span r.cap r.buf r.head m)) e
          ∙ copy_to_start dst (span r.cap r.buf r.head n)
              (omega (arith, length-span r.cap r.buf r.head n))
          ∙ ap (λ m. span r.cap r.buf r.head n ++ drop m dst) (length-span r.cap r.buf r.head n)

      one :
          first ≡ n
          → copy_to dst 0 (bytes_at r.buf (r.head % r.cap) first)
            ≡ span r.cap r.buf r.head n ++ drop n dst
      one e =
          ap (copy_to dst 0) (
            sym (
              span-contiguous r.cap r.buf r.head (r.head % r.cap) first refl
                (omega (arith, start_in)) (omega (arith, v.sized))))
          ∙ target first e

      pieces :
          first < n
          → copy_to
              (copy_to dst 0 (bytes_at r.buf (r.head % r.cap) first))
              first
              (bytes_at r.buf 0 (n - first))
            ≡ span r.cap r.buf r.head n ++ drop n dst
      pieces lt =
          ap
            (λ k.
              copy_to (copy_to dst 0 (bytes_at r.buf (r.head % r.cap) first)) k
                (bytes_at r.buf 0 (n - first)))
            {x = first} {y = 0 + length (bytes_at r.buf (r.head % r.cap) first)} reach
          ∙ sym (
              copy_to-append dst 0 (bytes_at r.buf (r.head % r.cap) first)
                (bytes_at r.buf 0 (n - first)))
          ∙ ap (copy_to dst 0)
              (sym (span_two r.cap r.buf r.head first n v.positive v.sized (omega arith) lt small))
          ∙ target n refl
        where
          reach : first ≡ 0 + length (bytes_at r.buf (r.head % r.cap) first)
          reach = omega (
            arith,
            length-take first (drop (r.head % r.cap) r.buf),
            length-drop (r.head % r.cap) r.buf,
            v.sized,
            start_in,
          )
