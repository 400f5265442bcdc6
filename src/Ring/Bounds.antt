-- ===== src/Ring/Bounds.antt =====
-- wiznet-rs/src/spsc_ring.rs: the representation invariant of a ring, and its bounds.
use native.Mathlib.Nat.{mod-mod_of_dvd}
use wiznet_rs.Prelude.{ℕ, ◌+◌, ◌%◌, ◌≤◌, ◌<◌, ◌∣◌, ◌≡◌, sym, ap, ◌∙◌, List, arith, length}
use wiznet_rs.Ring.{SpscRing, usize_mod, wrapping_sub, len, free}
use wiznet_rs.Ring.Window.{span}

-- A ring with a buffer: `cap` is its size, a `usize` that divides 2^32, the counters are `usize` values, and
-- no more than `cap` bytes are stored.
pub record IsValid (r : SpscRing) : Type 0 where
  pub sized : length r.buf ≡ r.cap
  pub positive : 0 < r.cap
  pub small : r.cap < usize_mod
  pub aligned : r.cap ∣ usize_mod
  pub head_in : r.head < usize_mod
  pub tail_in : r.tail < usize_mod
  pub len_in : wrapping_sub r.tail r.head ≤ r.cap

-- The stored bytes, oldest first.
abbrev pub contents : SpscRing → List ℕ
contents r = span r.cap r.buf r.head (wrapping_sub r.tail r.head)

-- Wrapping a counter leaves its index.
pub wrapped_index : (r : SpscRing) → IsValid r → (k : ℕ) → (k % usize_mod) % r.cap ≡ k % r.cap
wrapped_index r v k = mod-mod_of_dvd r.cap k v.aligned

-- The end counter is the start counter and the length, as an index.
pub tail_index :
    (r : SpscRing) → IsValid r → (r.head + wrapping_sub r.tail r.head) % r.cap ≡ r.tail % r.cap
tail_index r v =
    sym (wrapped_index r v (r.head + wrapping_sub r.tail r.head)) ∙ ap (λ k. k % r.cap) total
  where
    total : (r.head + wrapping_sub r.tail r.head) % usize_mod ≡ r.tail
    total = omega (arith, v.head_in, v.tail_in)

pub len-le-cap : (r : SpscRing) → IsValid r → len r ≤ r.cap
unfolding len
len-le-cap r v = v.len_in

-- `free` and `len` make up the capacity: the subtraction in `free` does not underflow.
pub free-add-len : (r : SpscRing) → IsValid r → free r + len r ≡ r.cap
unfolding free
free-add-len r v = omega (arith, v.len_in)
