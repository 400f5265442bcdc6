-- ===== src/Transceiver/Batch.antt =====
-- wiznet-rs/src/transiver.rs: the two inner passes of `exec_transaction`, which stage a batch of
-- operations in the scratch buffers and copy back what the transfer read.
use wiznet_rs.Prelude.{ℕ, ◌+◌, List, [], ◌∷◌, Option, none, some, ltb, if◌then◌else◌, length}
use wiznet_rs.Spi.{DmaBuffers}
use wiznet_rs.Ring.{copy_to, bytes_at}

-- `embedded_hal::spi::Operation`, with the slices that it borrows. A call gives back the slices
-- with what was read into them.
pub data Operation : Type 0 where
  read : List ℕ → Operation
  write : List ℕ → Operation
  transfer : List ℕ → List ℕ → Operation
  transfer_in_place : List ℕ → Operation
  delay_ns : ℕ → Operation

-- What the batching pass of `exec_transaction` leaves: the operations that fit the scratch
-- buffers, those that do not, and the payload staged.
pub record Batch : Type 0 where
  pub scratch : DmaBuffers
  pub offset : ℕ
  pub taken : List Operation
  pub rest : List Operation

abbrev stop : DmaBuffers → ℕ → List Operation → Option Batch
stop s offset ops = some (record { scratch = s; offset = offset; taken = []; rest = ops })

abbrev pub prepend : Operation → Option Batch → Option Batch
prepend op none = none
prepend op (some b) = some (record b { taken = op ∷ b.taken })

-- `mem[at..at + items.len()].copy_from_slice(items)`; `none` is the panic out of range.
unfoldable pub copy_slice : List ℕ → ℕ → List ℕ → Option (List ℕ)
copy_slice mem at items =
    if ltb (length mem) (at + length items) then none else some (copy_to mem at items)

-- `scratch_buffers.tx[offset..offset + items.len()].copy_from_slice(items)`
unfoldable pub stage : DmaBuffers → ℕ → List ℕ → Option DmaBuffers
unfolding copy_slice
stage s offset items = elim (copy_slice s.tx offset items) [
  | none ↦ none
  | some tx ↦ some (record s { tx = tx })
]

abbrev pub staged : (DmaBuffers → Option Batch) → Option DmaBuffers → Option Batch
staged next none = none
staged next (some s) = next s

-- The batching pass; `none` is a slice out of range.
unfoldable pub batch : DmaBuffers → ℕ → List Operation → Option Batch
unfolding stage
batch s offset [] = stop s offset []
batch s offset (read items ∷ ops) =
    if ltb (length s.rx) (offset + length items)
    then stop s offset (read items ∷ ops)
    else prepend (read items) (batch s (offset + length items) ops)
batch s offset (write items ∷ ops) =
    let next = λ (t : DmaBuffers). batch t (offset + length items) ops in
    if ltb (length s.tx) (offset + length items)
    then stop s offset (write items ∷ ops)
    else prepend (write items) (staged next (stage s offset items))
batch s offset (transfer dst items ∷ ops) =
    let next = λ (t : DmaBuffers). batch t (offset + length items) ops in
    if ltb (length s.tx) (offset + length items)
    then stop s offset (transfer dst items ∷ ops)
    else prepend (transfer dst items) (staged next (stage s offset items))
batch s offset (transfer_in_place items ∷ ops) =
    let next = λ (t : DmaBuffers). batch t (offset + length items) ops in
    if ltb (length s.tx) (offset + length items)
    then stop s offset (transfer_in_place items ∷ ops)
    else prepend (transfer_in_place items) (staged next (stage s offset items))
batch s offset (delay_ns ns ∷ ops) = stop s offset (delay_ns ns ∷ ops)

-- `&rx[from..from + n]`; `none` is the panic out of range.
unfoldable pub slice : List ℕ → ℕ → ℕ → Option (List ℕ)
slice rx from n = if ltb (length rx) (from + n) then none else some (bytes_at rx from n)

-- The copy-back pass over one batch; `none` is a slice out of range.
unfoldable pub scatter : List ℕ → ℕ → List Operation → Option (List Operation)
scatter rx offset [] = some []
scatter rx offset (read items ∷ ops) =
    let rest = scatter rx (offset + length items) ops in
    elim (slice rx offset (length items)) [
      | none ↦ none
      | some got ↦ elim rest [ none ↦ none | some done ↦ some (read got ∷ done) ]
    ]
scatter rx offset (transfer dst items ∷ ops) =
    let rest = scatter rx (offset + length dst) ops in
    elim (slice rx offset (length dst)) [
      | none ↦ none
      | some got ↦ elim rest [ none ↦ none | some done ↦ some (transfer got items ∷ done) ]
    ]
scatter rx offset (transfer_in_place items ∷ ops) =
    let rest = scatter rx (offset + length items) ops in
    elim (slice rx offset (length items)) [
      | none ↦ none
      | some got ↦ elim rest [ none ↦ none | some done ↦ some (transfer_in_place got ∷ done) ]
    ]
scatter rx offset (write items ∷ ops) =
    let rest = scatter rx (offset + length items) ops in
    elim rest [ none ↦ none | some done ↦ some (write items ∷ done) ]
scatter rx offset (delay_ns ns ∷ ops) =
    let rest = scatter rx offset ops in
    elim rest [ none ↦ none | some done ↦ some (delay_ns ns ∷ done) ]
