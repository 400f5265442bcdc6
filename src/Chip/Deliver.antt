-- ===== src/Chip/Deliver.antt =====
-- wiznet-rs/src/lib.rs: `finish_bulk`, and the ring of the transfer's socket.
use wiznet_rs.Prelude.{
  ℕ, ◌+◌, ◌%◌, ◌^◌, ◌≤◌, ◌<◌, ◌≡◌, refl, subst, false, List, [], ◌∷◌, ◌++◌, arith, length, drop,
  length-take, length-drop,
}
use wiznet_rs.Exec.{Exec, Returned}
use wiznet_rs.Safe.{Safe, Safe-bind}
use wiznet_rs.Spi.{SpiDmaDevice, KeepsBuffers}
use wiznet_rs.Transceiver.Block.{header_len, BlockAddress}
use wiznet_rs.Transceiver.Sound.{IsSized}
use wiznet_rs.Transceiver.Execute.{Transceiver, idle, in_flight}
use wiznet_rs.Transceiver.Ready.{IsReady, Both}
use wiznet_rs.Transceiver.Flight.{finish_read_lem}
use wiznet_rs.Ring
use wiznet_rs.Ring.{SpscRing, bytes_at}
use wiznet_rs.Ring.Bounds.{IsValid}
use wiznet_rs.Ring.Refine.{length-contents}
use wiznet_rs.Ring.Produce.{Appended, write-Appended}
use wiznet_rs.Registers.Codes.{SocketCommand, recv_flag}
use wiznet_rs.Registers.Ready.{
  set_rx_read_pointer-Safe, send_sock_command-Safe, clear_interrupts-Safe,
}
use wiznet_rs.Tick.{BulkKind}
use wiznet_rs.Udp.Frame.{SocketAddr, frame_header}
use wiznet_rs.Udp.Queue.{Datagram, Fits, encode, Holds}
use wiznet_rs.Udp.Send.{committed, staged}
use wiznet_rs.Chip.State.{BulkOp}
use wiznet_rs.Chip.Service.{
  datagram_header, take_payload, on_bus, commit_rx, finish_kind, finish_bulk,
}

-- the bytes of a transfer behind the header
abbrev pub payload_of : (spi : SpiDmaDevice) → spi.Transaction → ℕ → List ℕ
payload_of spi txn len = bytes_at (spi.wait txn).1.rx header_len len

pub length-payload_of :
    (spi : SpiDmaDevice) (txn : spi.Transaction) (size len : ℕ)
    → IsSized size (spi.wait txn).1
    → header_len + len ≤ size
    → length (payload_of spi txn len) ≡ len
length-payload_of spi txn size len z h = omega (
  arith,
  length-take len (drop header_len (spi.wait txn).1.rx),
  length-drop header_len (spi.wait txn).1.rx,
  z.rx_size,
)

module _ (spi : SpiDmaDevice) (keeps : KeepsBuffers spi) (size : ℕ) (block : BlockAddress)
    (J : SpscRing → Type 0) where
  pub Safe-on_bus :
      {A : Type 0} (m : Exec (Transceiver spi) A)
      → Safe (IsReady spi size) m
      → Safe (Both spi size J) (on_bus spi m)
  Safe-on_bus m k = record { at = λ (t, rx) (h, j). let (back, bus) = k.at t h in (back, (bus, j)) }

  -- What is told to the chip after the payload is in the ring leaves the ring alone.
  pub commit_rx-Safe : (end : ℕ) → Safe (Both spi size J) (commit_rx spi block end)
  commit_rx-Safe end =
      Safe-bind _ _ (Safe-on_bus _ (set_rx_read_pointer-Safe spi keeps size block end)) (λ _.
        Safe-bind _ _
          (Safe-on_bus _ (send_sock_command-Safe spi keeps size block SocketCommand.receive))
          (λ _. Safe-on_bus _ (clear_interrupts-Safe spi keeps size block recv_flag)))

module _ (spi : SpiDmaDevice) (keeps : KeepsBuffers spi) (size : ℕ) (txn : spi.Transaction)
    (sized : IsSized size (spi.wait txn).1) (rx : SpscRing) where
  -- the bus with the transfer in flight
  abbrev pub flying : Transceiver spi
  flying = record { cell = in_flight txn; busy = false }

  settled :
      IsReady spi size (record { cell = idle (spi.wait txn).0 (spi.wait txn).1; busy = false })
  settled = record { unlocked = refl; settled = sized }

  -- The completion of a TCP read, where the rx ring is valid and has room for the payload and the
  -- transfer fits the scratch buffers, appends all of the payload to the ring, in order, whether
  -- or not the chip can then be told; it returns, and leaves the bus ready.
  pub finish_bulk-Appended :
      (idx pointer len : ℕ) (block : BlockAddress)
      → IsValid rx
      → header_len + len ≤ size
      → len ≤ Ring.free rx
      → let op : BulkOp = record {
        idx = idx;
        kind = BulkKind.receive;
        block = block;
        pointer = pointer;
        len = len;
      } in
        let (r, (t, rx')) = finish_bulk spi op (flying, rx) in
        Returned r × IsReady spi size t × Appended rx rx' (payload_of spi txn len)
  unfolding finish_bulk finish_kind Ring.free Ring.len
  finish_bulk-Appended idx pointer len block v fits room =
      let (back, (ready, added)) =
        (commit_rx-Safe spi keeps size block (λ r. Appended rx r (payload_of spi txn len))
            ((pointer + len % 2 ^ 16) % 2 ^ 16)).at
          (
            record { cell = idle (spi.wait txn).0 (spi.wait txn).1; busy = false },
            (Ring.write rx (payload_of spi txn len)).1,
          )
          (
            settled,
            write-Appended rx (payload_of spi txn len) v (
                omega (
                  arith,
                  length-payload_of spi txn size len sized fits,
                  length-contents rx,
                  v.len_in,
                )),
          ) in
      rw (finish_read_lem spi size len (take_payload spi) txn rx sized fits) (back, ready, added)

  -- The completion of a UDP read, where the rx ring holds the datagrams `ds` and has room for the
  -- frame, the transfer fits the scratch buffers, and the length and the peer fit their fields,
  -- puts one datagram, header and payload, behind those that the ring holds and counts its frame,
  -- whether or not the chip can then be told; it returns, and leaves the bus ready.
  pub finish_bulk-Holds :
      (idx pointer len : ℕ) (block : BlockAddress) (peer : SocketAddr) (ds : List Datagram)
      → Holds rx ds
      → header_len + len ≤ size
      → len < 2 ^ 16
      → peer.ip < 2 ^ 32
      → peer.port < 2 ^ 16
      → 8 + len ≤ Ring.free rx
      → let kind = BulkKind.receive_datagram peer.ip peer.port in
        let op : BulkOp = record {
          idx = idx;
          kind = kind;
          block = block;
          pointer = pointer;
          len = len;
        } in
        let (r, (t, rx')) = finish_bulk spi op (flying, rx) in
        Returned r
        × IsReady spi size t
        × Holds rx' (ds ++ record { payload = payload_of spi txn len; peer = peer } ∷ [])
  unfolding finish_bulk finish_kind frame_header
  finish_bulk-Holds idx pointer len block peer ds h fits len_fits ip_fits port_fits room =
      let d : Datagram = record { payload = payload_of spi txn len; peer = peer } in
      let all : length d.payload ≡ len = length-payload_of spi txn size len sized fits in
      let f : Fits d = record {
        len_fits = omega (arith, all);
        ip_fits = ip_fits;
        port_fits = port_fits;
      } in
      let exact : len % 2 ^ 16 ≡ len = omega arith in
      let header : frame_header (length d.payload) peer
          ≡ datagram_header spi len peer.ip peer.port =
        rw (all, exact) refl in
      let headed = (Ring.write rx (datagram_header spi len peer.ip peer.port)).1 in
      let full = (Ring.write headed d.payload).1 in
      let added : Appended rx full (encode d) =
        subst (λ hd. Appended rx (Ring.write (Ring.write rx hd).1 d.payload).1 (encode d)) header
          (staged rx ds d h f (omega (arith, all, room))) in
      let (back, (ready, holds)) =
        (commit_rx-Safe spi keeps size block (λ r. Holds r (ds ++ d ∷ []))
            ((pointer + len % 2 ^ 16) % 2 ^ 16)).at
          (
            record { cell = idle (spi.wait txn).0 (spi.wait txn).1; busy = false },
            Ring.commit_frame full,
          )
          (settled, committed rx ds d h f full added) in
      rw (finish_read_lem spi size len (take_payload spi) txn headed sized fits)
        (back, ready, holds)
