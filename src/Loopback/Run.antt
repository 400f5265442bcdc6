-- ===== src/Loopback/Run.antt =====
-- examples/spi_dma_loopback.rs: the transfers, the completion interrupt and the rounds of `main`.
use wiznet_rs.Prelude.{
  ℕ, zero, suc, ◌+◌, ◌*◌, ◌/◌, ◌%◌, ◌^◌, Bool, true, false, List, [], ◌∷◌, Option, none, some, ltb,
  if◌then◌else◌,
}
use wiznet_rs.Exec.{ok, panic, out_of_fuel, Exec, pure, ◌>>◌}
use wiznet_rs.Loopback.Check.{Report, sizes, fill_pattern, fill_sentinel, verify}

-- A buffer of which the first `n` bytes are shown to the DMA.
pub record SliceN : Type 0 where
  pub buf : List ℕ
  pub n : ℕ

-- What `write_buffer` and `read_buffer` tell the DMA.
unfoldable pub shown : SliceN → List ℕ × ℕ
shown s = (s.buf, s.n)

-- `Core` stands for the registers that are written without a handle, and for the time that passes.
pub record Hal : Type 1 where
  pub Core : Type 0
  pub Dma : Type 0
  pub Transfer : Type 0
  pub Pin : Type 0
  pub clear_rx_tcif : Core → Core
  pub delay : Core → ℕ → Core
  pub set_low : Pin → Pin
  pub set_high : Pin → Pin
  pub read_write : Dma → SliceN → SliceN → Transfer
  pub wait : Transfer → (SliceN × SliceN) × Dma

module _ (hal : Hal) where
  -- the statics that the thread shares with the handler
  pub record Shared : Type 0 where
    pub core : hal.Core
    pub done : Bool
    pub inflight : Option hal.Transfer
    pub result : Option (hal.Dma × List ℕ × List ℕ)

  -- the thread's own
  pub record Bench : Type 0 where
    pub shared : Shared
    pub dma : Option hal.Dma
    pub rx : Option (List ℕ)
    pub tx : Option (List ℕ)
    pub report : Report
    pub led : hal.Pin

  -- The handler `DMA1_CHANNEL2`.
  unfoldable pub dma1_channel2 : Shared → Shared
  dma1_channel2 s =
      let t : Shared = elim s.inflight [
        | none ↦ s
        | some x ↦
            let ((rx, tx), dma) = hal.wait x in
            record s { inflight = none; result = some (dma, rx.buf, tx.buf) }
      ] in
      record t { core = hal.clear_rx_tcif t.core; done = true }

  -- From the fresh pattern to the published transfer; `unwrap` panics on a part that is missing.
  unfoldable pub arm : (len seed : ℕ) → Exec Bench (Unit {0})
  unfolding fill_pattern fill_sentinel
  arm len seed b = elim b.tx [
    | none ↦ (panic, b)
    | some txb ↦ elim b.rx [
      | none ↦ (panic, b)
      | some rxb ↦ elim b.dma [
        | none ↦ (panic, b)
        | some d ↦ (
          ok tt,
          record b {
            dma = none;
            rx = none;
            tx = none;
            shared = record b.shared {
              core = hal.clear_rx_tcif b.shared.core;
              done = false;
              inflight = some (
                  hal.read_write d (record { buf = fill_sentinel len rxb; n = len })
                    (record { buf = fill_pattern len 0 seed txb; n = len }));
            };
          },
        )
      ]
    ]
  ]

  -- `while !DONE { wfi }`: the only interrupt that is unmasked wakes the thread.
  unfoldable pub sleep : (fuel : ℕ) → Exec Bench (Unit {0})
  unfolding dma1_channel2
  sleep zero b = if b.shared.done then (ok tt, b) else (out_of_fuel, b)
  sleep (suc fuel) b =
      let rest = sleep fuel (record b { shared = dma1_channel2 b.shared }) in
      if b.shared.done then (ok tt, b) else rest

  -- The buffers taken back, and the check.
  unfoldable pub collect : (len : ℕ) → Exec Bench (Unit {0})
  unfolding verify
  collect len b = elim b.shared.result [
    | none ↦ (panic, b)
    | some back ↦
        let (d, rxb, txb) = back in
        (
          ok tt,
          record b {
            shared = record b.shared { result = none };
            dma = some d;
            rx = some rxb;
            tx = some txb;
            report = verify len txb rxb b.report;
          },
        )
  ]

  unfoldable pub exercise : (seed len : ℕ) → Exec Bench (Unit {0})
  unfolding arm sleep collect
  exercise seed len = do arm len seed; sleep 1; collect len

  unfoldable pub exercise_all : (seed : ℕ) → List ℕ → Exec Bench (Unit {0})
  unfolding exercise
  exercise_all seed [] = pure tt
  exercise_all seed (len ∷ lens) = let rest = exercise_all seed lens in (exercise seed len >> rest)

  unfoldable pub blink : (sysclk_hz half_period_ms : ℕ) → Exec Bench (Unit {0})
  blink sysclk_hz half_period_ms b =
      let cycles = sysclk_hz / 1000 * half_period_ms % 2 ^ 32 in
      (
        ok tt,
        record b {
          led = hal.set_high (hal.set_low b.led);
          shared = record b.shared { core = hal.delay (hal.delay b.shared.core cycles) cycles };
        },
      )

  -- One pass of the `loop`.
  unfoldable pub iteration : (sysclk_hz : ℕ) → Exec Bench (Unit {0})
  unfolding exercise_all blink
  iteration sysclk_hz b =
      let n = (b.report.iterations + 1) % 2 ^ 32 in
      (exercise_all (n % 2 ^ 8) sizes >> λ c.
      blink sysclk_hz (if ltb 0 c.report.fails then 50 else 500) c)
        (record b { report = record b.report { iterations = n } })
