-- ===== src/Echo/HalSpi.antt =====
-- examples/echo/src/hal_spi.rs: the firmware's transport over the chip's DMA. The HAL is not part
-- of the repository: its types and operations are the parameters `Hal`.
use wiznet_rs.Prelude.{ℕ, ◌+◌, ◌*◌, ◌/◌, ◌%◌, ◌^◌, List, ◌⊎◌, inl}
use wiznet_rs.Spi.{DmaBuffers, Completion, poll, interrupt, SpiDmaDevice}

abbrev header : ℕ
header = 3

abbrev payload : ℕ
payload = 512

abbrev pub scratch : ℕ
scratch = header + payload

-- The slices that are handed to the DMA, with the length that they report to it.
pub record RxWindow : Type 0 where
  pub buf : List ℕ
  pub len : ℕ

pub record TxWindow : Type 0 where
  pub buf : List ℕ
  pub len : ℕ

-- What the DMA is told: the memory from the window's start on, and a length.
unfoldable pub write_buffer : RxWindow → List ℕ × ℕ
write_buffer w = (w.buf, w.len)

unfoldable pub read_buffer : TxWindow → List ℕ × ℕ
read_buffer w = (w.buf, w.len)

-- `Core` stands for what `NVIC::unmask` and `asm::delay` act on; `clear_tc` is the write of
-- `ctcif2`, `listen` and `unlisten` are for `Event::TransferComplete`.
pub record Hal : Type 1 where
  pub Core : Type 0
  pub Pin : Type 0
  pub Spi : Type 0
  pub RxChannel : Type 0
  pub TxChannel : Type 0
  pub Dma : Type 0
  pub Transfer : Type 0
  pub unmask_dma1_channel2 : Core → Core
  pub delay : Core → ℕ → Core
  pub set_low : Pin → Pin
  pub set_high : Pin → Pin
  pub with_rx_tx_dma : Spi → RxChannel → TxChannel → Dma
  pub clear_tc : Dma → Dma
  pub listen : Dma → Dma
  pub unlisten : Dma → Dma
  pub read_write : Dma → RxWindow → TxWindow → Transfer
  pub wait : Transfer → (RxWindow × TxWindow) × Dma

-- u64 arithmetic, and the cast to u32
unfoldable pub delay_cycles : (ns sysclk_hz : ℕ) → ℕ
delay_cycles ns sysclk_hz = ns * sysclk_hz % 2 ^ 64 / 1_000_000_000 % 2 ^ 32

module _ (hal : Hal) where
  pub record HalSpi : Type 0 where
    pub core : hal.Core
    pub dma : hal.Dma
    pub cs : hal.Pin
    pub sysclk_hz : ℕ

  pub record HalTransaction : Type 0 where
    pub core : hal.Core
    pub transfer : hal.Transfer
    pub cs : hal.Pin
    pub sysclk_hz : ℕ
    pub len : ℕ

  unfoldable pub new : hal.Core → hal.Spi → hal.RxChannel → hal.TxChannel → hal.Pin → ℕ → HalSpi
  new core spi rx_ch tx_ch cs sysclk_hz = record {
    core = core;
    dma = hal.with_rx_tx_dma spi rx_ch tx_ch;
    cs = cs;
    sysclk_hz = sysclk_hz;
  }

  unfoldable pub delay_ns : HalSpi → ℕ → HalSpi
  unfolding delay_cycles
  delay_ns d ns = record d { core = hal.delay d.core (delay_cycles ns d.sysclk_hz) }

  -- The interrupt of the RX channel is armed before the channel is enabled.
  unfoldable pub arm : Completion → hal.Core × hal.Dma → hal.Core × hal.Dma
  arm interrupt (core, dma) = (hal.unmask_dma1_channel2 core, hal.listen dma)
  arm poll p = p

  unfoldable pub transceive :
      HalSpi → DmaBuffers → Completion → HalTransaction ⊎ (HalSpi × DmaBuffers)
  unfolding arm
  transceive d buffers completion =
      let (core, dma) = arm completion (d.core, hal.clear_tc d.dma) in
      let cs = hal.set_low d.cs in
      let rx : RxWindow = record { buf = buffers.rx; len = buffers.len } in
      let tx : TxWindow = record { buf = buffers.tx; len = buffers.len } in
      inl (record {
        core = core;
        transfer = hal.read_write dma rx tx;
        cs = cs;
        sysclk_hz = d.sysclk_hz;
        len = buffers.len;
      })

  unfoldable pub wait : HalTransaction → HalSpi × DmaBuffers
  wait t =
      let ((rx, tx), dma) = hal.wait t.transfer in
      (
        record {
          core = t.core;
          dma = hal.unlisten (hal.clear_tc dma);
          cs = hal.set_high t.cs;
          sysclk_hz = t.sysclk_hz;
        },
        record { rx = rx.buf; tx = tx.buf; len = t.len },
      )

  -- the firmware's instance of the driver's transport
  abbrev pub hal_device : SpiDmaDevice
  hal_device = record {
    Device = HalSpi;
    Transaction = HalTransaction;
    transceive = transceive;
    wait = wait;
    delay_ns = delay_ns;
  }
