-- ===== src/Tick.antt =====
-- wiznet-rs/src/socket.rs: what the two protocols share. A protocol's handler runs on the
-- transceiver, the socket's rings and its own state, all of which it may change.
pub mod Status
pub mod Ready
pub mod Fits
use wiznet_rs.Prelude.{ℕ, List}
use wiznet_rs.Exec.{Exec}
use wiznet_rs.Spi.{SpiDmaDevice}
use wiznet_rs.Transceiver.Execute.{Transceiver}
use wiznet_rs.Ring
use wiznet_rs.Ring.{SpscRing}

pub data SocketStatus : Type 0 where
  init opening connecting established listening : SocketStatus
  closing_due_to_error closing_due_to_timeout closing : SocketStatus
  timeout error closed : SocketStatus

pub data BulkKind : Type 0 where
  receive : BulkKind
  receive_datagram : (src_ip src_port : ℕ) → BulkKind
  transmit : BulkKind

pub data BulkAction : Type 0 where
  none : BulkAction
  started : (kind : BulkKind) (pointer len : ℕ) → BulkAction

pub record SocketRings : Type 0 where
  pub rx : SpscRing
  pub tx : SpscRing

abbrev pub new : SocketRings
new = record { rx = Ring.new; tx = Ring.new }

unfoldable pub install : SocketRings → List ℕ → List ℕ → SocketRings
install r rx tx = record { rx = Ring.install r.rx rx; tx = Ring.install r.tx tx }

unfoldable pub clear : SocketRings → SocketRings
clear r = record { rx = Ring.clear r.rx; tx = Ring.clear r.tx }

module _ (spi : SpiDmaDevice) (P : Type 0) where
  pub record Tick : Type 0 where
    pub trans : Transceiver spi
    pub rings : SocketRings
    pub proto : P

module _ {spi : SpiDmaDevice} {P A : Type 0} where
  -- A call of a register function, which changes the transceiver only.
  abbrev pub on_trans : Exec (Transceiver spi) A → Exec (Tick spi P) A
  on_trans m s = let (r, t) = m s.trans in (r, record s { trans = t })

  -- The same where a closure in it reads the tx ring.
  abbrev pub on_trans_tx : Exec (Transceiver spi × SpscRing) A → Exec (Tick spi P) A
  on_trans_tx m s =
      let (r, (t, tx)) = m (s.trans, s.rings.tx) in
      (r, record s { trans = t; rings = record s.rings { tx = tx } })

-- `|buf| { rings.tx.read(buf); }`
abbrev pub drain_into : List ℕ → SpscRing → List ℕ × SpscRing
drain_into buf tx = let (n, buf', tx') = Ring.read tx buf in (buf', tx')
