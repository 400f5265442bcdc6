-- ===== src/Ring/Write.antt =====
-- wiznet-rs/src/spsc_ring.rs: `write` on a valid ring.
use wiznet_rs.Prelude.{
  ℕ, ◌+◌, ◌-◌, ◌≤◌, min, ◌≡◌, refl, sym, ap, ap₂, ◌∙◌, List, ◌++◌, inl, inr, arith, ◌==◌,
  Bool-cases, length, take, length-take,
}
use wiznet_rs.Ring.{SpscRing, wrapping_add, wrapping_sub, write, free}
use wiznet_rs.Ring.Window.{span, store, length-store, store_congr}
use wiznet_rs.Ring.Append.{span-store}
use wiznet_rs.Ring.Bounds.{IsValid, contents, tail_index}
use wiznet_rs.Ring.Copies.{copy_in-store}

abbrev room : SpscRing → ℕ
room r = r.cap - wrapping_sub r.tail r.head

-- the ring after `n` bytes of `src` went in
abbrev stored : SpscRing → List ℕ → ℕ → SpscRing
stored r src n = record r {
  buf = store r.cap r.buf r.tail (take n src);
  tail = wrapping_add r.tail n;
}

module _ (r : SpscRing) (v : IsValid r) (src : List ℕ) where
  -- `write` stores the count's bytes, also when it returns early with none.
  write-stored : write r src ≡ (min (length src) (room r), stored r src (min (length src) (room r)))
  unfolding write
  write-stored = elim (Bool-cases (r.cap == 0)) [
    | inl none ↦ absurd (ground (arith, v.positive))
    | inr some ↦ rw some (elim (Bool-cases (n == 0)) [
      | inl full ↦ rw full (nothing (ground arith))
      | inr more ↦ rw more (
          ap (λ (m : List ℕ). (n, record r { buf = m; tail = wrapping_add r.tail n }))
            (copy_in-store r v src n (omega arith) (omega arith)))
    ])
  ]
    where
      n : ℕ
      n = min (length src) (room r)

      nothing : n ≡ 0 → ◌≡◌ {A = ℕ × SpscRing} (0, r) (n, stored r src n)
      nothing e =
          ap (λ (t : ℕ). (0, record r { tail = t })) {x = r.tail} {y = wrapping_add r.tail 0}
            (omega (arith, v.tail_in))
          ∙ ap (λ k. (k, stored r src k)) (sym e)

  module _ (n : ℕ) (fits : n ≤ length src) (small : n ≤ room r) where
    stored-len : wrapping_sub (wrapping_add r.tail n) r.head ≡ wrapping_sub r.tail r.head + n
    stored-len = omega (arith, v.len_in, v.head_in, v.tail_in, v.small)

    stored-contents : contents (stored r src n) ≡ contents r ++ take n src
    stored-contents =
        ap₂ (λ m k. span r.cap m r.head k)
          (store_congr r.cap r.buf r.tail (r.head + wrapping_sub r.tail r.head) (take n src)
            (sym (tail_index r v)))
          (stored-len ∙ ap (λ k. wrapping_sub r.tail r.head + k) exact)
        ∙ span-store r.cap r.buf r.head (wrapping_sub r.tail r.head)
            (r.head + wrapping_sub r.tail r.head) (take n src) (omega (arith, v.len_in, exact))
            (omega (arith, v.sized)) refl
      where
        exact : n ≡ length (take n src)
        exact = omega (arith, length-take n src)

    stored-IsValid : IsValid (stored r src n)
    stored-IsValid = record {
      sized = length-store r.cap r.buf r.tail (take n src) ∙ v.sized;
      positive = v.positive;
      small = v.small;
      aligned = v.aligned;
      head_in = v.head_in;
      tail_in = omega arith;
      len_in = omega (arith, stored-len, v.len_in);
    }

  -- `write` to a valid ring takes as many bytes as fit, returns their number, appends exactly
  -- those bytes to the stored ones, keeps the ring valid, and leaves the consumer's counter, the
  -- frame counts and the capacity alone.
  pub write_lem :
      let (n, r') = write r src in
      (n ≡ min (length src) (free r))
      × (contents r' ≡ contents r ++ take n src)
      × IsValid r'
      × (r'.head ≡ r.head)
      × (r'.cap ≡ r.cap)
      × (r'.frames_in ≡ r.frames_in)
      × (r'.frames_out ≡ r.frames_out)
  unfolding free
  write_lem = rw write-stored (
    refl,
    stored-contents (min (length src) (room r)) (omega arith) (omega arith),
    stored-IsValid (min (length src) (room r)) (omega arith) (omega arith),
    refl,
    refl,
    refl,
    refl,
  )
