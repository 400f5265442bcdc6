-- ===== src/Ring/Concurrent/Moves.antt =====
-- wiznet-rs/src/spsc_ring.rs: what the copies and the `Release` stores do to a valid ring.
use wiznet_rs.Prelude.{
  ℕ, ◌+◌, ◌-◌, ◌≤◌, ◌≡◌, sym, ap, ◌∙◌, List, ◌++◌, arith, length, take, drop, length-take,
  take-append,
}
use wiznet_rs.Ring.{SpscRing, wrapping_add, wrapping_sub, copy_in, copy_out}
use wiznet_rs.Ring.Window.{
  span, store, length-store, length-span, span_add, span_congr, store_congr,
}
use wiznet_rs.Ring.Append.{span-store, span-store_away}
use wiznet_rs.Ring.Bounds.{IsValid, contents, tail_index, wrapped_index}
use wiznet_rs.Ring.Copies.{copy_in-store, copy_out-span}
use wiznet_rs.Ring.Read.{span-head, span-rest}
use wiznet_rs.Ring.Concurrent.Steps.{write_copy, write_publish, read_publish}

abbrev pub room : SpscRing → ℕ
room r = r.cap - wrapping_sub r.tail r.head

module _ (r : SpscRing) (v : IsValid r) where
  module _ (src : List ℕ) (n : ℕ) (fits : n ≤ length src) (small : n ≤ room r) where
    stored : copy_in r src n ≡ store r.cap r.buf r.tail (take n src)
    stored = copy_in-store r v src n fits (omega arith)

    exact : length (take n src) ≡ n
    exact = omega (arith, length-take n src)

    pub write_copy-IsValid : IsValid (write_copy r src n)
    unfolding write_copy
    write_copy-IsValid = record {
      sized = ap length stored ∙ length-store r.cap r.buf r.tail (take n src) ∙ v.sized;
      positive = v.positive;
      small = v.small;
      aligned = v.aligned;
      head_in = v.head_in;
      tail_in = v.tail_in;
      len_in = v.len_in;
    }

    -- The copies touch nothing that is stored.
    pub contents-write_copy : contents (write_copy r src n) ≡ contents r
    unfolding write_copy
    contents-write_copy =
        ap (λ m. span r.cap m r.head (wrapping_sub r.tail r.head))
          (stored
            ∙ store_congr r.cap r.buf r.tail (r.head + wrapping_sub r.tail r.head) (take n src)
                (sym (tail_index r v)))
        ∙ span-store_away r.cap r.buf r.head (wrapping_sub r.tail r.head)
            (r.head + wrapping_sub r.tail r.head) (take n src) (omega arith)
            (omega (arith, exact, v.len_in))

    pub span-write_copy : span r.cap (write_copy r src n).buf r.tail n ≡ take n src
    unfolding write_copy
    span-write_copy =
        ap (λ m. span r.cap m r.tail n) stored
        ∙ ap (span r.cap (store r.cap r.buf r.tail (take n src)) r.tail) {x = n}
            {y = 0 + length (take n src)} (omega (arith, exact))
        ∙ span-store r.cap r.buf r.tail 0 r.tail (take n src) (omega (arith, exact, v.len_in))
            (omega (arith, v.sized)) (omega arith)

  module _ (n : ℕ) (small : n ≤ room r) where
    grown : wrapping_sub (wrapping_add r.tail n) r.head ≡ wrapping_sub r.tail r.head + n
    grown = omega (arith, v.len_in, v.head_in, v.tail_in, v.small)

    pub write_publish-IsValid : IsValid (write_publish r n)
    unfolding write_publish
    write_publish-IsValid = record {
      sized = v.sized;
      positive = v.positive;
      small = v.small;
      aligned = v.aligned;
      head_in = v.head_in;
      tail_in = omega arith;
      len_in = omega (arith, grown, v.len_in);
    }

    -- The store to `tail` makes the bytes behind it the newest ones.
    pub contents-write_publish :
        contents (write_publish r n) ≡ contents r ++ span r.cap r.buf r.tail n
    unfolding write_publish
    contents-write_publish =
        ap (span r.cap r.buf r.head) grown
        ∙ span_add r.cap r.buf r.head (wrapping_sub r.tail r.head) n
        ∙ ap (λ ys. contents r ++ ys)
            (span_congr r.cap r.buf (r.head + wrapping_sub r.tail r.head) r.tail n (tail_index r v))

  module _ (n : ℕ) (within : n ≤ wrapping_sub r.tail r.head) where
    shrunk : wrapping_sub r.tail (wrapping_add r.head n) ≡ wrapping_sub r.tail r.head - n
    shrunk = omega (arith, v.len_in, v.head_in, v.tail_in, v.small)

    pub read_publish-IsValid : IsValid (read_publish r n)
    unfolding read_publish
    read_publish-IsValid = record {
      sized = v.sized;
      positive = v.positive;
      small = v.small;
      aligned = v.aligned;
      head_in = omega arith;
      tail_in = v.tail_in;
      len_in = omega (arith, shrunk, v.len_in);
    }

    -- The store to `head` gives up the oldest bytes.
    pub contents-read_publish : contents (read_publish r n) ≡ drop n (contents r)
    unfolding read_publish
    contents-read_publish =
        ap (span r.cap r.buf (wrapping_add r.head n)) shrunk
        ∙ span_congr r.cap r.buf (wrapping_add r.head n) (r.head + n)
            (wrapping_sub r.tail r.head - n) (wrapped_index r v (r.head + n))
        ∙ span-rest r v n within

    pub room-read_publish : room r ≤ room (read_publish r n)
    unfolding read_publish
    room-read_publish = omega (arith, shrunk)

    -- The copies of the consumer take the oldest bytes.
    pub take-copy_out :
        (dst : List ℕ) → n ≤ length dst → take n (copy_out r dst n) ≡ take n (contents r)
    take-copy_out dst fits =
        ap (take n) (copy_out-span r v dst n fits (omega (arith, v.len_in)))
        ∙ take-append n (span r.cap r.buf r.head n) (drop n dst) (length-span r.cap r.buf r.head n)
        ∙ span-head r v n within
