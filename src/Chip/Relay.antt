-- ===== src/Chip/Relay.antt =====
-- wiznet-rs/src/tcp_socket.rs and wiznet-rs/src/lib.rs: a TCP receive from the tick that starts it
-- to the interrupt that completes it.
use wiznet_rs.Prelude.{ℕ, ◌+◌, ◌≤◌, ◌≡◌, subst, false, List, length}
use wiznet_rs.Exec.{ok, Returned}
use wiznet_rs.Safe.{Post}
use wiznet_rs.Spi.{SpiDmaDevice, KeepsBuffers}
use wiznet_rs.Ring
use wiznet_rs.Ring.{SpscRing}
use wiznet_rs.Ring.Bounds.{IsValid}
use wiznet_rs.Ring.Produce.{Appended}
use wiznet_rs.Transceiver.Block.{BlockAddress, header_len}
use wiznet_rs.Transceiver.Execute.{Transceiver}
use wiznet_rs.Transceiver.Ready.{IsReady}
use wiznet_rs.Tick.{BulkKind, started}
use wiznet_rs.Tick.Ready.{Ready}
use wiznet_rs.Tcp.State.{TcpTick}
use wiznet_rs.Tcp.Transfer.{receive}
use wiznet_rs.Tcp.Edges.{stay}
use wiznet_rs.Tcp.Flows.{receive-Safe}
use wiznet_rs.Tcp.Promise.{Airborne, Promise, receive_lem}
use wiznet_rs.Chip.State.{BulkOp}
use wiznet_rs.Chip.Service.{finish_bulk}
use wiznet_rs.Chip.Deliver.{payload_of, length-payload_of, finish_bulk-Appended}

-- The ring `rx'` is `rx` after `len` bytes went in behind what it stored.
abbrev pub Grown : ℕ → SpscRing → SpscRing → Type 0
Grown len rx rx' = (payload : List ℕ) × (length payload ≡ len) × Appended rx rx' payload

module _ (spi : SpiDmaDevice) (keeps : KeepsBuffers spi) (size : ℕ) (block : BlockAddress) where
  abbrev op_of : (idx pointer len : ℕ) → BulkOp
  op_of idx pointer len = record {
    idx = idx;
    kind = BulkKind.receive;
    block = block;
    pointer = pointer;
    len = len;
  }

  completed :
      (idx pointer len : ℕ) (t : Transceiver spi) (rx : SpscRing)
      → Airborne spi keeps size t
      → header_len + len ≤ size
      → len ≤ Ring.free rx
      → IsValid rx
      → let (r, (t', rx')) = finish_bulk spi (op_of idx pointer len) (t, rx) in
        Returned r × IsReady spi size t' × Grown len rx rx'
  completed idx pointer len t rx (txn, e, z) fits room v =
      let (back, ready, added) =
        finish_bulk-Appended spi keeps size txn z rx idx pointer len block v fits room in
      rw e (back, ready, (payload_of spi txn len, length-payload_of spi txn size len z fits, added))

  -- A receive that a tick reports as started on a ready bus and valid rings is completed without
  -- fail: the completion returns, leaves the bus ready, and appends just as many bytes as the tick
  -- announced to the rx ring.
  pub receive-finish_bulk :
      (s s' : TcpTick spi) (idx pointer len : ℕ)
      → Ready spi size s
      → receive spi block s ≡ (ok (started BulkKind.receive pointer len), s')
      → let (r, (t, rx')) = finish_bulk spi (op_of idx pointer len) (s'.trans, s'.rings.rx) in
        Returned r × IsReady spi size t × Grown len s'.rings.rx rx'
  receive-finish_bulk s s' idx pointer len h e =
      let (air, fits, room) =
        subst (λ m. Post (Promise spi keeps size block) m.0 m.1) e
          (receive_lem spi keeps size block s h) in
      let (back, after) =
        (receive-Safe spi keeps size block false s.proto.status).at s
          (record { bus = h.bus; rx_valid = h.rx_valid; tx_valid = h.tx_valid; proto_ok = stay }) in
      completed idx pointer len s'.trans s'.rings.rx air fits room
        (subst (λ m. IsValid m.1.rings.rx) e after.rx_valid)
