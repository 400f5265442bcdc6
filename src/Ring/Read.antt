-- ===== src/Ring/Read.antt =====
-- wiznet-rs/src/spsc_ring.rs: `read` and `peek` on a valid ring.
use wiznet_rs.Prelude.{
  ℕ, ◌+◌, ◌-◌, ◌≤◌, min, ◌≡◌, refl, sym, ap, ap₂, ◌∙◌, List, ◌++◌, inl, inr, arith, ◌==◌,
  Bool-cases, length, take, drop, take-append, drop-append,
}
use wiznet_rs.Ring.{SpscRing, wrapping_add, wrapping_sub, copy_out, read, peek, len}
use wiznet_rs.Ring.Window.{span, length-span, span_add, span_congr}
use wiznet_rs.Ring.Bounds.{IsValid, contents, wrapped_index}
use wiznet_rs.Ring.Copies.{copy_out-span}

module _ (r : SpscRing) (v : IsValid r) where
  -- The bytes at the head are the first of the contents, and the rest follow them.
  pub span-head :
      (n : ℕ) → n ≤ wrapping_sub r.tail r.head → span r.cap r.buf r.head n ≡ take n (contents r)
  span-head n h =
      sym (
        take-append n (span r.cap r.buf r.head n)
          (span r.cap r.buf (r.head + n) (wrapping_sub r.tail r.head - n))
          (length-span r.cap r.buf r.head n))
      ∙ ap (take n) (
          sym (span_add r.cap r.buf r.head n (wrapping_sub r.tail r.head - n))
          ∙ ap (span r.cap r.buf r.head) {x = n + (wrapping_sub r.tail r.head - n)}
              {y = wrapping_sub r.tail r.head} (omega arith))

  pub span-rest :
      (n : ℕ)
      → n ≤ wrapping_sub r.tail r.head
      → span r.cap r.buf (r.head + n) (wrapping_sub r.tail r.head - n) ≡ drop n (contents r)
  span-rest n h =
      sym (
        drop-append n (span r.cap r.buf r.head n)
          (span r.cap r.buf (r.head + n) (wrapping_sub r.tail r.head - n))
          (length-span r.cap r.buf r.head n))
      ∙ ap (drop n) (
          sym (span_add r.cap r.buf r.head n (wrapping_sub r.tail r.head - n))
          ∙ ap (span r.cap r.buf r.head) {x = n + (wrapping_sub r.tail r.head - n)}
              {y = wrapping_sub r.tail r.head} (omega arith))

  module _ (dst : List ℕ) where
    abbrev count : ℕ
    count = min (length dst) (wrapping_sub r.tail r.head)

    -- what `dst` holds after `count` bytes went to its start
    abbrev filled : List ℕ
    filled = take count (contents r) ++ drop count dst

    copied : copy_out r dst count ≡ filled
    copied =
        copy_out-span r v dst count (omega arith) (omega (arith, v.len_in))
        ∙ ap (λ ys. ys ++ drop count dst) (span-head count (omega arith))

    nothing : count ≡ 0 → dst ≡ filled
    nothing e = ap (λ k. take k (contents r) ++ drop k dst) (sym e)

    peek-filled : peek r dst ≡ (count, filled)
    unfolding peek
    peek-filled = elim (Bool-cases (r.cap == 0)) [
      | inl none ↦ absurd (ground (arith, v.positive))
      | inr some ↦ rw some (elim (Bool-cases (count == 0)) [
        | inl empty ↦
            rw empty
              (ap₂ (λ (k : ℕ) (ys : List ℕ). (k, ys)) (sym (ground arith)) (nothing (ground arith)))
        | inr more ↦ rw more (ap (λ (ys : List ℕ). (count, ys)) copied)
      ])
    ]

    read-filled : read r dst ≡ (count, filled, record r { head = wrapping_add r.head count })
    unfolding read
    read-filled = elim (Bool-cases (r.cap == 0)) [
      | inl none ↦ absurd (ground (arith, v.positive))
      | inr some ↦ rw some (elim (Bool-cases (count == 0)) [
        | inl empty ↦ rw empty (unmoved (ground arith))
        | inr more ↦ rw more (
            ap (λ (ys : List ℕ). (count, ys, record r { head = wrapping_add r.head count })) copied)
      ])
    ]
      where
        same_head : r.head ≡ wrapping_add r.head 0
        same_head = omega (arith, v.head_in)

        unmoved :
            count ≡ 0
            → ◌≡◌ {A = ℕ × List ℕ × SpscRing}
                (0, dst, r)
                (count, filled, record r { head = wrapping_add r.head count })
        unmoved e =
            ap₂ (λ (ys : List ℕ) (h : ℕ). (0, ys, record r { head = h })) (nothing e) same_head
            ∙ ap (λ (k : ℕ). (k, filled, record r { head = wrapping_add r.head k })) (sym e)

    left : wrapping_sub r.tail (wrapping_add r.head count) ≡ wrapping_sub r.tail r.head - count
    left = omega (arith, v.len_in, v.head_in, v.tail_in, v.small)

    contents-left :
        contents (record r { head = wrapping_add r.head count }) ≡ drop count (contents r)
    contents-left =
        ap (span r.cap r.buf (wrapping_add r.head count)) left
        ∙ span_congr r.cap r.buf (wrapping_add r.head count) (r.head + count)
            (wrapping_sub r.tail r.head - count) (wrapped_index r v (r.head + count))
        ∙ span-rest count (omega arith)

    -- `read` of a valid ring takes as many bytes as are stored and as fit `dst`, returns their
    -- number, puts the oldest of them at the start of `dst` in order, keeps the rest stored and
    -- the ring valid, and leaves the producer's counter, the frame counts, the buffer and the
    -- capacity alone.
    pub read_lem :
        let (n, dst', r') = read r dst in
        (n ≡ min (length dst) (len r))
        × (dst' ≡ take n (contents r) ++ drop n dst)
        × (contents r' ≡ drop n (contents r))
        × IsValid r'
        × (r'.tail ≡ r.tail)
        × (r'.buf ≡ r.buf)
        × (r'.cap ≡ r.cap)
        × (r'.frames_in ≡ r.frames_in)
        × (r'.frames_out ≡ r.frames_out)
    unfolding len
    read_lem = rw read-filled (refl, refl, contents-left, valid, refl, refl, refl, refl, refl)
      where
        valid : IsValid (record r { head = wrapping_add r.head count })
        valid = record {
          sized = v.sized;
          positive = v.positive;
          small = v.small;
          aligned = v.aligned;
          head_in = omega arith;
          tail_in = v.tail_in;
          len_in = omega (arith, left, v.len_in);
        }

    -- `peek` returns what `read` would, and there is no new ring: nothing is consumed.
    pub peek_lem :
        let (n, dst') = peek r dst in
        (n ≡ min (length dst) (len r)) × (dst' ≡ take n (contents r) ++ drop n dst)
    unfolding len
    peek_lem = rw peek-filled (refl, refl)

    -- `peek` of a valid ring returns just what `read` would: the same count and the same slice.
    pub peek-read : peek r dst ≡ ((read r dst).0, (read r dst).1)
    peek-read = rw (peek-filled, read-filled)
