-- ===== src/Echo/HalLaws.antt =====
-- examples/echo/src/hal_spi.rs: the transport does what the driver relies on, if the HAL does what
-- it documents.
use native.Mathlib.Nat.{mul-le-mul_left}
use wiznet_rs.Prelude.{
  ℕ, ◌+◌, ◌*◌, ◌≤◌, ◌<◌, ◌/◌, ◌%◌, ◌^◌, ◌≡◌, sym, ap, ◌∙◌, inl, inr, arith, length,
}
use wiznet_rs.Spi.{KeepsBuffers}
use wiznet_rs.Echo.HalSpi
use wiznet_rs.Echo.HalSpi.{
  Hal, RxWindow, TxWindow, write_buffer, read_buffer, HalSpi, HalTransaction, hal_device,
  delay_cycles,
}

-- What the HAL documents of `read_write` and `wait`: the windows that went in come back, and the
-- DMA only reads from the tx window.
pub record Documented (hal : Hal) : Type 0 where
  pub tx_back :
      (d : hal.Dma) (rx : RxWindow) (tx : TxWindow) → (hal.wait (hal.read_write d rx tx)).0.1 ≡ tx
  pub rx_back :
      (d : hal.Dma) (rx : RxWindow) (tx : TxWindow)
      → length (write_buffer (hal.wait (hal.read_write d rx tx)).0.0).0 ≡ length (write_buffer rx).0

module _ (hal : Hal) (doc : Documented hal) where
  -- Over a HAL that does what it documents, the firmware's transport meets what the driver asks of
  -- one: every transfer gives the buffers back with their sizes.
  pub hal_device-KeepsBuffers : KeepsBuffers (hal_device hal)
  unfolding HalSpi.transceive HalSpi.wait write_buffer
  hal_device-KeepsBuffers = record {
    done = λ d b c t e.
        let armed = HalSpi.arm hal c (d.core, hal.clear_tc d.dma) in
        let rx : RxWindow = record { buf = b.rx; len = b.len } in
        let tx : TxWindow = record { buf = b.tx; len = b.len } in
        (
          ap (λ o. elim o [ inl x ↦ length (HalSpi.wait hal x).1.rx | inr x ↦ 0 ]) (sym e)
              ∙ doc.rx_back armed.1 rx tx,
          ap (λ o. elim o [ inl x ↦ length (HalSpi.wait hal x).1.tx | inr x ↦ 0 ]) (sym e)
              ∙ ap (λ (w : TxWindow). length w.buf) (doc.tx_back armed.1 rx tx),
        );
    refused = λ d d' b b' c e. absurd cc;
  }

floor :
    (p : ℕ)
    → p < 2 ^ 32 * 1_000_000_000
    → let cycles = p % 2 ^ 64 / 1_000_000_000 % 2 ^ 32 in
      (cycles * 1_000_000_000 ≤ p) × (p < (cycles + 1) * 1_000_000_000)
floor p h = (omega arith, omega arith)

-- For a clock of 1 GHz at most and a delay of 32 bits, the cycles of the delay are the requested
-- time rounded down to a whole cycle: neither the product nor the count overflows.
pub delay_cycles-bounds :
    (ns sysclk_hz : ℕ)
    → ns < 2 ^ 32
    → sysclk_hz ≤ 1_000_000_000
    → (delay_cycles ns sysclk_hz * 1_000_000_000 ≤ ns * sysclk_hz)
      × (ns * sysclk_hz < (delay_cycles ns sysclk_hz + 1) * 1_000_000_000)
unfolding delay_cycles
delay_cycles-bounds ns sysclk_hz small slow =
    floor (ns * sysclk_hz) (omega (arith, mul-le-mul_left ns slow, small))
