-- ===== src/Ring.antt =====
-- wiznet-rs/src/spsc_ring.rs: `SpscRing` and its operations, each run to its end.
-- An operation on `&self` returns its results with the new ring. The atomic loads and stores
-- are reads and updates of the record's fields. `usize` has 32 bits, as on the target
-- thumbv7m-none-eabi.
pub mod Window
pub mod Append
pub mod Bounds
pub mod Copies
pub mod Write
pub mod Read
pub mod Queue
pub mod Frames
pub mod Refine
pub mod Consume
pub mod Produce
pub mod Concurrent
use wiznet_rs.Prelude.{
  ℕ, zero, suc, ◌+◌, ◌-◌, ◌%◌, ◌^◌, min, List, [], ◌∷◌, ltb, ◌==◌, if◌then◌else◌, length, set, take,
  drop,
}

-- `buf` is the memory behind `ptr`: the slice that `install` was given.
pub record SpscRing : Type 0 where
  pub buf : List ℕ
  pub cap : ℕ
  pub head : ℕ
  pub tail : ℕ
  pub frames_in : ℕ
  pub frames_out : ℕ

abbrev pub usize_mod : ℕ
usize_mod = 2 ^ 32

abbrev pub wrapping_add : ℕ → ℕ → ℕ
wrapping_add a b = (a + b) % usize_mod

abbrev pub wrapping_sub : ℕ → ℕ → ℕ
wrapping_sub a b = (a + usize_mod - b) % usize_mod

-- `copy_nonoverlapping` into the memory `mem` from index `i` on, a byte at a time.
abbrev pub copy_to : List ℕ → ℕ → List ℕ → List ℕ
copy_to mem i [] = mem
copy_to mem i (x ∷ xs) = copy_to (set mem i x) (i + 1) xs

-- The `n` bytes of the memory `mem` from index `i` on.
abbrev pub bytes_at : List ℕ → ℕ → ℕ → List ℕ
bytes_at mem i n = take n (drop i mem)

abbrev pub new : SpscRing
new = record { buf = []; cap = 0; head = 0; tail = 0; frames_in = 0; frames_out = 0 }

unfoldable pub install : SpscRing → List ℕ → SpscRing
install r storage = record {
  buf = storage;
  cap = length storage;
  head = 0;
  tail = 0;
  frames_in = 0;
  frames_out = 0;
}

unfoldable pub clear : SpscRing → SpscRing
clear r = record r { head = 0; frames_out = 0; frames_in = 0; tail = 0 }

abbrev pub capacity : SpscRing → ℕ
capacity r = r.cap

unfoldable pub len : SpscRing → ℕ
len r = wrapping_sub r.tail r.head

-- `capacity() - len()`; `Bounds.len-le-cap` rules out the underflow.
unfoldable pub free : SpscRing → ℕ
unfolding len
free r = capacity r - len r

-- The two copies of `write`: up to the end of the buffer, and the rest from its start.
unfoldable pub copy_in : SpscRing → List ℕ → ℕ → List ℕ
copy_in r src n =
    let start = r.tail % r.cap in
    let first = min n (r.cap - start) in
    let mem = copy_to r.buf start (take first src) in
    if ltb first n then copy_to mem 0 (bytes_at src first (n - first)) else mem

unfoldable pub write : SpscRing → List ℕ → ℕ × SpscRing
unfolding copy_in
write r src =
    if capacity r == 0
    then (0, r)
    else let n = min (length src) (r.cap - wrapping_sub r.tail r.head) in
      if n == 0
      then (0, r)
      else (n, record r { buf = copy_in r src n; tail = wrapping_add r.tail n })

-- The two copies of `read` and `peek` into `dst`.
unfoldable pub copy_out : SpscRing → List ℕ → ℕ → List ℕ
copy_out r dst n =
    let start = r.head % r.cap in
    let first = min n (r.cap - start) in
    let dst' = copy_to dst 0 (bytes_at r.buf start first) in
    if ltb first n then copy_to dst' first (bytes_at r.buf 0 (n - first)) else dst'

-- The count, what `dst` holds afterwards, and the ring.
unfoldable pub read : SpscRing → List ℕ → ℕ × List ℕ × SpscRing
unfolding copy_out
read r dst =
    if capacity r == 0
    then (0, dst, r)
    else let n = min (length dst) (wrapping_sub r.tail r.head) in
      if n == 0
      then (0, dst, r)
      else (n, copy_out r dst n, record r { head = wrapping_add r.head n })

unfoldable pub peek : SpscRing → List ℕ → ℕ × List ℕ
unfolding copy_out
peek r dst =
    if capacity r == 0
    then (0, dst)
    else let n = min (length dst) (wrapping_sub r.tail r.head) in
      if n == 0 then (0, dst) else (n, copy_out r dst n)

unfoldable pub frames : SpscRing → ℕ
frames r = wrapping_sub r.frames_in r.frames_out

unfoldable pub commit_frame : SpscRing → SpscRing
commit_frame r = record r { frames_in = wrapping_add r.frames_in 1 }

unfoldable pub release_frame : SpscRing → SpscRing
release_frame r = record r { frames_out = wrapping_add r.frames_out 1 }
