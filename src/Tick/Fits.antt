-- ===== src/Tick/Fits.antt =====
-- wiznet-rs/src/socket.rs: a transfer that has started, and the scratch buffers.
use wiznet_rs.Prelude.{ℕ, ◌+◌, ◌≤◌, List, inl, inr, Bool-cases, ltb, length, arith}
use wiznet_rs.Cell.{with_lock_mut_env}
use wiznet_rs.Ring.{SpscRing}
use wiznet_rs.Transceiver.Async.{take_idle, launch_write, stage_write, start_write}
use wiznet_rs.Transceiver.Ready.{Settled, IsReady}
use wiznet_rs.Exec.{Result, ok, err, panic, out_of_fuel}
use wiznet_rs.Safe.{Post}
use wiznet_rs.Yields.{Given, Yields}
use wiznet_rs.Spi.{SpiDmaDevice, KeepsBuffers}
use wiznet_rs.Transceiver.Block.{BlockAddress, Address, header_len}
use wiznet_rs.Transceiver.Execute.{DmaState, pending, idle, in_flight, Transceiver}
use wiznet_rs.Registers.Access.{start_read_rx_buffer, start_write_tx_buffer}
use wiznet_rs.Tick.{BulkAction, started, on_trans, on_trans_tx}
use wiznet_rs.Tick.Ready.{TickReady}
use wiznet_rs.Tcp.Promise.{Reading, start_read-Reading}

-- The bytes of a transfer fit the scratch buffers behind the header.
abbrev pub LenFits : ℕ → ℕ → Type 0
LenFits size len = header_len + len ≤ size

abbrev pub ActionFits : ℕ → BulkAction → Type 0
ActionFits size BulkAction.none = Unit
ActionFits size (started kind pointer len) = LenFits size len

Given-always : {A P : Type 0} (r : Result A) → P → Given (λ _. P) r
Given-always (ok a) p = p
Given-always (err e) p = tt
Given-always panic p = tt
Given-always out_of_fuel p = tt

module _ (spi : SpiDmaDevice) (keeps : KeepsBuffers spi) (size : ℕ) where
  read_fits :
      (len : ℕ) (r : Result (Unit {0})) (t : Transceiver spi)
      → Post (Reading spi keeps size len) r t
      → Given (λ _. LenFits size len) r
  read_fits len (ok u) t p = p.1
  read_fits len (err e) t p = tt
  read_fits len panic t p = tt
  read_fits len out_of_fuel t p = tt

  -- A write that has started passed the check of its size.
  start_write-Given :
      {E : Type 0} (addr : Address) (len : ℕ) (fill : List ℕ → E → List ℕ × E) (t : Transceiver spi)
      (e : E)
      → IsReady spi size t
      → Given (λ _. LenFits size len) (start_write spi addr len fill (t, e)).0
  unfolding start_write with_lock_mut_env take_idle
  start_write-Given addr len fill t e h = rw h.unlocked (body t.cell h.settled)
    where
      body :
          (c : DmaState spi)
          → Settled spi size c
          → Given (λ _. LenFits size len) (stage_write spi addr len fill e (take_idle spi c)).0
      body pending z = absurd z
      body (in_flight txn) z = tt
      body (idle dev s) z = elim (Bool-cases (ltb (length s.tx) (header_len + len))) [
        | inl small ↦ rw small tt
        | inr room ↦
            Given-always {P = LenFits size len} (launch_write spi addr len fill dev s e).0
              (ground (arith, z.tx_size))
      ]

module _ (spi : SpiDmaDevice) (keeps : KeepsBuffers spi) (size : ℕ) (block : BlockAddress)
    {P : Type 0} {K : P → Type 0} where
  -- A read that has started fits the buffers behind its header.
  pub start_read_rx_buffer-Yields :
      (pointer len : ℕ)
      → Yields
          (TickReady spi size {P = P} K)
          (λ _. LenFits size len)
          (on_trans (start_read_rx_buffer spi block pointer len))
  unfolding start_read_rx_buffer
  start_read_rx_buffer-Yields pointer len = record {
    at = λ s h.
        read_fits spi keeps size len _ _ (start_read-Reading spi keeps size _ len s.trans h.bus);
  }

  pub start_write_tx_buffer-Yields :
      (pointer len : ℕ) (fill : List ℕ → SpscRing → List ℕ × SpscRing)
      → Yields
          (TickReady spi size {P = P} K)
          (λ _. LenFits size len)
          (on_trans_tx (start_write_tx_buffer spi block pointer len fill))
  unfolding start_write_tx_buffer
  start_write_tx_buffer-Yields pointer len fill = record {
    at = λ s h. start_write-Given spi keeps size _ len fill s.trans s.rings.tx h.bus;
  }
