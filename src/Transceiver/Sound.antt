-- ===== src/Transceiver/Sound.antt =====
-- wiznet-rs/src/transiver.rs: the batching and copy-back passes and the scratch buffers.
use wiznet_rs.Prelude.{
  ℕ, ◌+◌, ◌≤◌, ◌≡◌, refl, ap, ◌∙◌, Bool, inl, inr, Bool-cases, List, [], ◌∷◌, ◌++◌, Option, some,
  arith, ltb, length, set, length-set,
}
use wiznet_rs.Spi.{DmaBuffers}
use wiznet_rs.Transceiver.Block.{Address, header_len, create_header}
use wiznet_rs.Ring.{copy_to, bytes_at}
use wiznet_rs.Transceiver.Batch.{
  Operation, read, write, transfer, transfer_in_place, delay_ns, Batch, prepend, copy_slice, stage,
  batch, slice, scatter,
}

pub length-copy_to : (mem : List ℕ) (i : ℕ) (xs : List ℕ) → length (copy_to mem i xs) ≡ length mem
length-copy_to mem i [] = refl
length-copy_to mem i (x ∷ xs) = length-copy_to (set mem i x) (i + 1) xs ∙ length-set mem i x

-- The bytes that an operation takes in the scratch buffers.
abbrev pub op_size : Operation → ℕ
op_size (read items) = length items
op_size (write items) = length items
op_size (transfer dst items) = length items
op_size (transfer_in_place items) = length items
op_size (delay_ns ns) = 0

abbrev pub op_sizes : List Operation → ℕ
op_sizes [] = 0
op_sizes (op ∷ ops) = op_size op + op_sizes ops

-- A full-duplex transfer reads as much as it writes.
abbrev pub Matched : Operation → Type 0
Matched (transfer dst items) = length dst ≡ length items
Matched _ = Unit

abbrev pub AllMatched : List Operation → Type 0
AllMatched [] = Unit
AllMatched (op ∷ ops) = Matched op × AllMatched ops

pub record IsSized (size : ℕ) (b : DmaBuffers) : Type 0 where
  pub rx_size : length b.rx ≡ size
  pub tx_size : length b.tx ≡ size

pub copy_slice-some :
    (mem : List ℕ) (at : ℕ) (items : List ℕ)
    → at + length items ≤ length mem
    → copy_slice mem at items ≡ some (copy_to mem at items)
unfolding copy_slice
copy_slice-some mem at items h = ground arith

length-create_header : (addr : Address) (rwb : Bool) → length (create_header addr rwb) ≡ header_len
unfolding create_header
length-create_header addr rwb = refl

-- The header of a transfer that fits is staged.
pub stage_header :
    (tx : List ℕ) (addr : Address) (rwb : Bool) (len : ℕ)
    → header_len + len ≤ length tx
    → copy_slice tx 0 (create_header addr rwb) ≡ some (copy_to tx 0 (create_header addr rwb))
stage_header tx addr rwb len h =
    copy_slice-some tx 0 (create_header addr rwb) (omega (arith, length-create_header addr rwb, h))

-- Bytes that lie within the buffers are staged.
stage-IsSized :
    (size : ℕ) (s : DmaBuffers) (offset : ℕ) (items : List ℕ)
    → IsSized size s
    → offset + length items ≤ length s.tx
    → (t : DmaBuffers) × (stage s offset items ≡ some t) × IsSized size t
unfolding stage
stage-IsSized size s offset items z h = (
  record s { tx = copy_to s.tx offset items },
  rw (stage, copy_slice-some s.tx offset items h),
  record { rx_size = z.rx_size; tx_size = length-copy_to s.tx offset items ∙ z.tx_size },
)

-- What the batching pass leaves: a split of the operations, the first part within the buffers.
pub record IsBatch (size offset : ℕ) (ops : List Operation) (b : Batch) : Type 0 where
  pub split : b.taken ++ b.rest ≡ ops
  pub sized : IsSized size b.scratch
  pub within : b.offset ≤ size
  pub exact : b.offset ≡ offset + op_sizes b.taken
  pub taken_matched : AllMatched b.taken
  pub rest_matched : AllMatched b.rest

-- The pass finds every slice and leaves such a batch.
abbrev pub Batched : (size offset : ℕ) → List Operation → Option Batch → Type 0
Batched size offset ops m = (b : Batch) × (m ≡ some b) × IsBatch size offset ops b

module _ (size : ℕ) where
  stopped :
      (s : DmaBuffers) (offset : ℕ) (ops : List Operation)
      → IsSized size s
      → offset ≤ size
      → AllMatched ops
      → Batched size offset ops
          (some (record { scratch = s; offset = offset; taken = []; rest = ops }))
  stopped s offset ops z h m = (
    record { scratch = s; offset = offset; taken = []; rest = ops },
    refl,
    record {
      split = refl;
      sized = z;
      within = h;
      exact = omega arith;
      taken_matched = tt;
      rest_matched = m;
    },
  )

  prepended :
      (op : Operation) (offset : ℕ) (ops : List Operation) (m : Option Batch)
      → Matched op
      → Batched size (offset + op_size op) ops m
      → Batched size offset (op ∷ ops) (prepend op m)
  prepended op offset ops m matched (b, e, k) = (
    record b { taken = op ∷ b.taken },
    rw e refl,
    record {
      split = ap (λ rest. op ∷ rest) k.split;
      sized = k.sized;
      within = k.within;
      exact = omega (arith, k.exact);
      taken_matched = (matched, k.taken_matched);
      rest_matched = k.rest_matched;
    },
  )

  pub batch-IsBatch :
      (ops : List Operation) (s : DmaBuffers) (offset : ℕ)
      → IsSized size s
      → offset ≤ size
      → AllMatched ops
      → Batched size offset ops (batch s offset ops)
  unfolding batch
  batch-IsBatch [] s offset z h m = stopped s offset [] z h m
  batch-IsBatch (delay_ns ns ∷ ops) s offset z h m = stopped s offset (delay_ns ns ∷ ops) z h m
  batch-IsBatch (read items ∷ ops) s offset z h m =
      elim (Bool-cases (ltb (length s.rx) (offset + length items))) [
        | inl full ↦ rw full (stopped s offset (read items ∷ ops) z h m)
        | inr room ↦ rw room (
            prepended (read items) offset ops _ tt
              (batch-IsBatch ops s (offset + length items) z (ground (arith, z.rx_size)) m.1))
      ]
  batch-IsBatch (write items ∷ ops) s offset z h m =
      elim (Bool-cases (ltb (length s.tx) (offset + length items))) [
        | inl full ↦ rw full (stopped s offset (write items ∷ ops) z h m)
        | inr room ↦
            let (t, e, k) = stage-IsSized size s offset items z (ground arith) in
            rw (room, e)
              (prepended (write items) offset ops _ tt
                (batch-IsBatch ops t (offset + length items) k (ground (arith, z.tx_size)) m.1))
      ]
  batch-IsBatch (transfer dst items ∷ ops) s offset z h m =
      elim (Bool-cases (ltb (length s.tx) (offset + length items))) [
        | inl full ↦ rw full (stopped s offset (transfer dst items ∷ ops) z h m)
        | inr room ↦
            let (t, e, k) = stage-IsSized size s offset items z (ground arith) in
            rw (room, e)
              (prepended (transfer dst items) offset ops _ m.0
                (batch-IsBatch ops t (offset + length items) k (ground (arith, z.tx_size)) m.1))
      ]
  batch-IsBatch (transfer_in_place items ∷ ops) s offset z h m =
      elim (Bool-cases (ltb (length s.tx) (offset + length items))) [
        | inl full ↦ rw full (stopped s offset (transfer_in_place items ∷ ops) z h m)
        | inr room ↦
            let (t, e, k) = stage-IsSized size s offset items z (ground arith) in
            rw (room, e)
              (prepended (transfer_in_place items) offset ops _ tt
                (batch-IsBatch ops t (offset + length items) k (ground (arith, z.tx_size)) m.1))
      ]

pub slice-some :
    (rx : List ℕ) (from n : ℕ) → from + n ≤ length rx → slice rx from n ≡ some (bytes_at rx from n)
unfolding slice
slice-some rx from n h = ground arith

-- The copy-back of a batch that lies in the buffer finds every slice.
pub scatter-some :
    (ops : List Operation) (rx : List ℕ) (offset : ℕ)
    → AllMatched ops
    → offset + op_sizes ops ≤ length rx
    → (done : List Operation) × (scatter rx offset ops ≡ some done)
unfolding scatter
scatter-some [] rx offset m h = ([], refl)
scatter-some (read items ∷ ops) rx offset m h =
    let (done, e) = scatter-some ops rx (offset + length items) m.1 (omega arith) in
    (
      read (bytes_at rx offset (length items)) ∷ done,
      rw (scatter, slice-some rx offset (length items) (omega arith), e),
    )
scatter-some (transfer dst items ∷ ops) rx offset m h =
    let (done, e) = scatter-some ops rx (offset + length dst) m.1 (omega (arith, m.0)) in
    (
      transfer (bytes_at rx offset (length dst)) items ∷ done,
      rw (scatter, slice-some rx offset (length dst) (omega (arith, m.0)), e),
    )
scatter-some (transfer_in_place items ∷ ops) rx offset m h =
    let (done, e) = scatter-some ops rx (offset + length items) m.1 (omega arith) in
    (
      transfer_in_place (bytes_at rx offset (length items)) ∷ done,
      rw (scatter, slice-some rx offset (length items) (omega arith), e),
    )
scatter-some (write items ∷ ops) rx offset m h =
    let (done, e) = scatter-some ops rx (offset + length items) m.1 (omega arith) in
    (write items ∷ done, rw e)
scatter-some (delay_ns ns ∷ ops) rx offset m h =
    let (done, e) = scatter-some ops rx offset m.1 (omega arith) in (delay_ns ns ∷ done, rw e)
