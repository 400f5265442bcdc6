-- ===== src/Backend/Fits.antt =====
-- wiznet-rs/src/socket.rs: a transfer that a slot's tick starts fits the scratch buffers.
use wiznet_rs.Prelude.{ℕ}
use wiznet_rs.Yields.{Given}
use wiznet_rs.Spi.{SpiDmaDevice, KeepsBuffers}
use wiznet_rs.Tick.Ready.{Ready}
use wiznet_rs.Tick.Fits.{ActionFits}
use wiznet_rs.Tcp.Fits.{tcp_run-Yields}
use wiznet_rs.Udp.Fits.{udp_run-Yields}
use wiznet_rs.Backend.{BackendState, free, tcp, udp, BackendTick, run_state, run}

module _ (spi : SpiDmaDevice) (keeps : KeepsBuffers spi) (size : ℕ) where
  run_state-Given :
      (st : BackendState) (s : BackendTick spi)
      → Ready spi size s
      → Given (ActionFits size) (run_state spi st s).0
  unfolding run_state
  run_state-Given free s h = tt
  run_state-Given (tcp t) s h =
      (tcp_run-Yields spi keeps size s.proto.block).at
        (record { trans = s.trans; rings = s.rings; proto = t })
        (record { bus = h.bus; rx_valid = h.rx_valid; tx_valid = h.tx_valid; proto_ok = tt })
  run_state-Given (udp u) s h =
      (udp_run-Yields spi keeps size s.proto.block).at
        (record { trans = s.trans; rings = s.rings; proto = u })
        (record { bus = h.bus; rx_valid = h.rx_valid; tx_valid = h.tx_valid; proto_ok = tt })

  pub slot_run-Given :
      (s : BackendTick spi) → Ready spi size s → Given (ActionFits size) (run spi s).0
  unfolding run
  slot_run-Given s h = run_state-Given s.proto.state s h
