-- ===== src/Tick/Ready.antt =====
-- wiznet-rs/src/socket.rs: what a tick keeps, a ready bus, rings that are in order, and a fact `K`
-- about the protocol's own state.
use wiznet_rs.Prelude.{ℕ, List}
use wiznet_rs.Exec.{Exec}
use wiznet_rs.Safe.{Safe}
use wiznet_rs.Spi.{SpiDmaDevice}
use wiznet_rs.Transceiver.Execute.{Transceiver}
use wiznet_rs.Transceiver.Ready.{IsReady, Both}
use wiznet_rs.Ring.{SpscRing}
use wiznet_rs.Ring.Bounds.{IsValid}
use wiznet_rs.Ring.Read.{read_lem}
use wiznet_rs.Tick.{Tick, on_trans, on_trans_tx, drain_into}

module _ (spi : SpiDmaDevice) (size : ℕ) {P : Type 0} where
  pub record TickReady (K : P → Type 0) (s : Tick spi P) : Type 0 where
    pub bus : IsReady spi size s.trans
    pub rx_valid : IsValid s.rings.rx
    pub tx_valid : IsValid s.rings.tx
    pub proto_ok : K s.proto

  -- what a tick begins with and leaves
  abbrev pub Ready : Tick spi P → Type 0
  Ready = TickReady (λ proto. Unit {0})

module _ {spi : SpiDmaDevice} {size : ℕ} {P : Type 0} {K : P → Type 0} {A : Type 0} where
  pub Safe-on_trans :
      (m : Exec (Transceiver spi) A)
      → Safe (IsReady spi size) m
      → Safe (TickReady spi size K) (on_trans m)
  Safe-on_trans m k = record {
    at = λ s h.
        let (back, bus) = k.at s.trans h.bus in
        (
          back,
          record { bus = bus; rx_valid = h.rx_valid; tx_valid = h.tx_valid; proto_ok = h.proto_ok },
        );
  }

  pub Safe-on_trans_tx :
      (m : Exec (Transceiver spi × SpscRing) A)
      → Safe (Both spi size IsValid) m
      → Safe (TickReady spi size K) (on_trans_tx m)
  Safe-on_trans_tx m k = record {
    at = λ s h.
        let (back, (bus, valid)) = k.at (s.trans, s.rings.tx) (h.bus, h.tx_valid) in
        (
          back,
          record { bus = bus; rx_valid = h.rx_valid; tx_valid = valid; proto_ok = h.proto_ok },
        );
  }

pub drain_into-IsValid : (buf : List ℕ) (tx : SpscRing) → IsValid tx → IsValid (drain_into buf tx).1
drain_into-IsValid buf tx v = (read_lem tx v buf).3
