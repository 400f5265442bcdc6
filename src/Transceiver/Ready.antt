-- ===== src/Transceiver/Ready.antt =====
-- wiznet-rs/src/transiver.rs: the bus between two calls, and the synchronous operations on it.
use wiznet_rs.Prelude.{
  ℕ, ◌≡◌, refl, true, false, List, [], ◌∷◌, Option, none, some, arith, length, replicate,
}
use wiznet_rs.Exec.{DriverError, Result, ok, Exec, Returned}
use wiznet_rs.Safe.{Safe, Safe-bind, Safe-pure}
use wiznet_rs.Cell.{with_lock_mut}
use wiznet_rs.Spi.{SpiDmaDevice, KeepsBuffers}
use wiznet_rs.Transceiver.Block.{Address, create_header}
use wiznet_rs.Transceiver.Batch.{Operation, read, write}
use wiznet_rs.Transceiver.Sound.{AllMatched, IsSized}
use wiznet_rs.Transceiver.Total.{Ended, exec_transaction-Ended}
use wiznet_rs.Transceiver.Execute.{
  DmaState, pending, idle, in_flight, Transceiver, Executed, settle, transact, transaction,
  read_bytes, write_bytes, read_u8, read_u16, write_u8, write_u16, write_u32,
}

module _ (spi : SpiDmaDevice) (size : ℕ) where
  -- A state that is found between two calls: not `Pending`, and with buffers of `size` bytes.
  abbrev pub Settled : DmaState spi → Type 0
  Settled pending = ⊥
  Settled (idle dev s) = IsSized size s
  Settled (in_flight txn) = IsSized size (spi.wait txn).1

  pub record IsReady (t : Transceiver spi) : Type 0 where
    pub unlocked : t.busy ≡ false
    pub settled : Settled t.cell

  -- the bus and what a closure on it has captured, of which `J` holds
  abbrev pub Both : {E : Type 0} → (E → Type 0) → Transceiver spi × E → Type 0
  Both J (t, e) = IsReady t × J e

  -- A critical section that keeps the cell settled keeps the transceiver ready.
  pub Safe-with_lock_mut :
      {A : Type 0} (body : Exec (DmaState spi) A)
      → Safe Settled body
      → Safe IsReady (with_lock_mut body)
  unfolding with_lock_mut
  Safe-with_lock_mut body k = record {
    at = λ t h.
        let (r, c) = k.at t.cell h.settled in
        rw h.unlocked (r, record { unlocked = refl; settled = c });
  }

module _ (spi : SpiDmaDevice) (keeps : KeepsBuffers spi) (size : ℕ) where
  by_error :
      (x : Executed spi) (c : DmaState spi) (o : Option DriverError)
      → x.error ≡ o
      → IsSized size x.scratch
      → Returned (settle spi (ok x) c).0 × Settled spi size (settle spi (ok x) c).1
  unfolding settle
  by_error x c none e z = rw e (tt, z)
  by_error x c (some f) e z = rw e (tt, z)

  settle-Settled :
      (r : Result (Executed spi)) (c : DmaState spi)
      → Ended spi keeps size r
      → Returned (settle spi r c).0 × Settled spi size (settle spi r c).1
  settle-Settled r c (x, e, z) = rw e (by_error x c x.error refl z)

  pub transaction-Safe :
      (ops : List Operation) → AllMatched ops → Safe (IsReady spi size) (transaction spi ops)
  unfolding transaction
  transaction-Safe ops m = Safe-with_lock_mut spi size _ (record { at = body })
    where
      body :
          (c : DmaState spi)
          → Settled spi size c
          → Returned (transact spi ops c).0 × Settled spi size (transact spi ops c).1
      body pending h = absurd h
      body (in_flight txn) h = (tt, h)
      body (idle dev s) h =
          settle-Settled _ pending
            (exec_transaction-Ended spi keeps size (length ops) dev s ops (omega arith) h m)

  -- On a ready bus, with operations whose two slices match, `transaction` returns without a panic
  -- and leaves the bus ready, whatever the transport answers.
  pub transaction_lem :
      (ops : List Operation) (t : Transceiver spi)
      → AllMatched ops
      → IsReady spi size t
      → Returned (transaction spi ops t).0 × IsReady spi size (transaction spi ops t).1
  transaction_lem ops t m h = (transaction-Safe ops m).at t h

  pub read_bytes-Safe :
      (addr : Address) (buf : List ℕ) → Safe (IsReady spi size) (read_bytes spi addr buf)
  unfolding read_bytes
  read_bytes-Safe addr buf =
      Safe-bind _ _
        (transaction-Safe (write (create_header addr false) ∷ read buf ∷ []) (tt, (tt, tt)))
        (λ done. Safe-pure _)

  pub write_bytes-Safe :
      (addr : Address) (bytes : List ℕ) → Safe (IsReady spi size) (write_bytes spi addr bytes)
  unfolding write_bytes
  write_bytes-Safe addr bytes =
      Safe-bind _ _
        (transaction-Safe (write (create_header addr true) ∷ write bytes ∷ []) (tt, (tt, tt)))
        (λ done. Safe-pure _)

  pub read_u8-Safe : (addr : Address) → Safe (IsReady spi size) (read_u8 spi addr)
  unfolding read_u8
  read_u8-Safe addr = Safe-bind _ _ (read_bytes-Safe addr (replicate 1 0)) (λ buf. Safe-pure _)

  pub read_u16-Safe : (addr : Address) → Safe (IsReady spi size) (read_u16 spi addr)
  unfolding read_u16
  read_u16-Safe addr = Safe-bind _ _ (read_bytes-Safe addr (replicate 2 0)) (λ buf. Safe-pure _)

  pub write_u8-Safe : (addr : Address) (v : ℕ) → Safe (IsReady spi size) (write_u8 spi addr v)
  unfolding write_u8
  write_u8-Safe addr v = write_bytes-Safe addr _

  pub write_u16-Safe : (addr : Address) (v : ℕ) → Safe (IsReady spi size) (write_u16 spi addr v)
  unfolding write_u16
  write_u16-Safe addr v = write_bytes-Safe addr _

  pub write_u32-Safe : (addr : Address) (v : ℕ) → Safe (IsReady spi size) (write_u32 spi addr v)
  unfolding write_u32
  write_u32-Safe addr v = write_bytes-Safe addr _
