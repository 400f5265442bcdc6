-- ===== src/Spi.antt =====
-- wiznet-rs/src/spi_dma.rs: the transport that the driver is generic over. The device is not part
-- of the crate, so its type and its operations are parameters of the model.
use wiznet_rs.Prelude.{ℕ, List, ◌⊎◌, inl, inr, ◌≡◌, length}

pub record DmaBuffers : Type 0 where
  pub rx : List ℕ
  pub tx : List ℕ
  pub len : ℕ

pub data Completion : Type 0 where
  poll interrupt : Completion

-- `SpiDmaDevice` with its `SpiDmaTransaction` and `DelayNs`. A refused transfer gives the device
-- and the buffers back; the driver drops its error value.
pub record SpiDmaDevice : Type 1 where
  pub Device : Type 0
  pub Transaction : Type 0
  pub transceive : Device → DmaBuffers → Completion → Transaction ⊎ (Device × DmaBuffers)
  pub wait : Transaction → Device × DmaBuffers
  pub delay_ns : Device → ℕ → Device

-- The device gives back the buffers that it was handed: slices of the same length.
pub record KeepsBuffers (spi : SpiDmaDevice) : Type 0 where
  pub done :
      (d : spi.Device) (b : DmaBuffers) (c : Completion) (t : spi.Transaction)
      → spi.transceive d b c ≡ inl t
      → (length (spi.wait t).1.rx ≡ length b.rx) × (length (spi.wait t).1.tx ≡ length b.tx)
  pub refused :
      (d d' : spi.Device) (b b' : DmaBuffers) (c : Completion)
      → spi.transceive d b c ≡ inr (d', b')
      → (length b'.rx ≡ length b.rx) × (length b'.tx ≡ length b.tx)
