-- ===== src/Transceiver/Total.antt =====
-- wiznet-rs/src/transiver.rs: the rounds of `exec_transaction`.
use wiznet_rs.Prelude.{
  ℕ, zero, suc, ◌≤◌, ◌≡◌, refl, ap, ◌∙◌, ◌⊎◌, inl, inr, List, [], ◌∷◌, ◌++◌, arith, length,
  length-append,
}
use wiznet_rs.Exec.{Result, ok, map_ok}
use wiznet_rs.Spi.{DmaBuffers, poll, SpiDmaDevice, KeepsBuffers}
use wiznet_rs.Transceiver.Batch.{
  Operation, read, write, transfer, transfer_in_place, delay_ns, Batch,
}
use wiznet_rs.Transceiver.Sound.{AllMatched, IsSized, IsBatch, batch-IsBatch, scatter-some}
use wiznet_rs.Transceiver.Execute.{Executed, lone, clock, round, exec_transaction}

module _ (spi : SpiDmaDevice) (keeps : KeepsBuffers spi) (size : ℕ) where
  -- It came back, with the buffers.
  abbrev pub Ended : Result (Executed spi) → Type 0
  Ended r = (x : Executed spi) × (r ≡ ok x) × IsSized size x.scratch

  -- what the rest of the rounds does
  abbrev pub Again : ℕ → (spi.Device → DmaBuffers → List Operation → Result (Executed spi)) → Type 0
  Again fuel again =
      (d : spi.Device) (s : DmaBuffers) (ops : List Operation)
      → length ops ≤ fuel
      → IsSized size s
      → AllMatched ops
      → Ended (again d s ops)

  Ended-map :
      (r : Result (Executed spi)) (done : List Operation)
      → Ended r
      → Ended (map_ok (λ (x : Executed spi). record x { ops = done ++ x.ops }) r)
  Ended-map r done (x, e, z) = (record x { ops = done ++ x.ops }, rw e, z)

  lone-Ended :
      (fuel : ℕ) (again : spi.Device → DmaBuffers → List Operation → Result (Executed spi))
      → Again fuel again
      → (dev : spi.Device) (s : DmaBuffers) (op : Operation) (ops : List Operation)
      → length ops ≤ fuel
      → IsSized size s
      → AllMatched ops
      → Ended (lone spi again dev s op ops)
  lone-Ended fuel again k dev s (delay_ns ns) ops h z m =
      Ended-map _ (delay_ns ns ∷ []) (k (spi.delay_ns dev ns) s ops h z m)
  lone-Ended fuel again k dev s (read items) ops h z m = (_, refl, z)
  lone-Ended fuel again k dev s (write items) ops h z m = (_, refl, z)
  lone-Ended fuel again k dev s (transfer dst items) ops h z m = (_, refl, z)
  lone-Ended fuel again k dev s (transfer_in_place items) ops h z m = (_, refl, z)

  clock-Ended :
      (fuel : ℕ) (again : spi.Device → DmaBuffers → List Operation → Result (Executed spi))
      → Again fuel again
      → (dev : spi.Device) (ops : List Operation) (b : Batch) → IsBatch size 0 ops b
      → length b.rest ≤ fuel
      → (o : spi.Transaction ⊎ (spi.Device × DmaBuffers))
      → spi.transceive dev (record b.scratch { len = b.offset }) poll ≡ o
      → Ended (clock spi again b o)
  clock-Ended fuel again k dev ops b kb h (inl txn) e =
      let (rx_same, tx_same) = keeps.done dev (record b.scratch { len = b.offset }) poll txn e in
      let (done, found) =
        scatter-some b.taken (spi.wait txn).1.rx 0 kb.taken_matched
          (omega (arith, rx_same, kb.sized.rx_size, kb.within, kb.exact)) in
      rw found (
        Ended-map _ done (
          k (spi.wait txn).0 (spi.wait txn).1 b.rest h
            (record { rx_size = rx_same ∙ kb.sized.rx_size; tx_size = tx_same ∙ kb.sized.tx_size })
            kb.rest_matched))
  clock-Ended fuel again k dev ops b kb h (inr (dev', s)) e =
      let (rx_same, tx_same) =
        keeps.refused dev dev' (record b.scratch { len = b.offset }) s poll e in
      (
        _,
        refl,
        record { rx_size = rx_same ∙ kb.sized.rx_size; tx_size = tx_same ∙ kb.sized.tx_size },
      )

  round-Ended :
      (fuel : ℕ) (again : spi.Device → DmaBuffers → List Operation → Result (Executed spi))
      → Again fuel again
      → (dev : spi.Device) (op : Operation) (ops : List Operation) (b : Batch)
      → IsBatch size 0 (op ∷ ops) b
      → AllMatched ops
      → length ops ≤ fuel
      → (taken : List Operation) → b.taken ≡ taken
      → Ended (round spi again dev op ops b taken)
  round-Ended fuel again k dev op ops b kb m h [] e =
      lone-Ended fuel again k dev b.scratch op ops h kb.sized m
  round-Ended fuel again k dev op ops b kb m h (t ∷ ts) e =
      clock-Ended fuel again k dev (op ∷ ops) b kb shorter _ refl
    where
      shorter : length b.rest ≤ fuel
      shorter = omega (arith, ap length kb.split, length-append b.taken b.rest, ap length e)

  -- With as many rounds as there are operations, `exec_transaction` on buffers of equal size and
  -- operations whose two slices match gives the device back with buffers of the size that they
  -- had: it neither panics nor runs out of rounds, whatever the transport answers.
  pub exec_transaction-Ended :
      (fuel : ℕ) (d : spi.Device) (s : DmaBuffers) (ops : List Operation)
      → length ops ≤ fuel
      → IsSized size s
      → AllMatched ops
      → Ended (exec_transaction spi fuel d s ops)
  unfolding exec_transaction
  exec_transaction-Ended fuel dev s [] h z m = (_, refl, z)
  exec_transaction-Ended zero dev s (op ∷ ops) h z m = absurd (omega arith)
  exec_transaction-Ended (suc fuel) dev s (op ∷ ops) h z m =
      let (b, e, k) = batch-IsBatch size (op ∷ ops) s 0 z (omega arith) m in
      rw e (
        round-Ended fuel (exec_transaction spi fuel) (exec_transaction-Ended fuel) dev op ops b k
          m.1 (omega arith) b.taken refl)
