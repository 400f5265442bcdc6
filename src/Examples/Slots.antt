-- ===== src/Examples/Slots.antt =====
-- Slots, the round over them, and bulk transfers from their start to their completion.
use wiznet_rs.Prelude.{◌≤◌, List, [], ◌∷◌, arith, refl, true, false}
use wiznet_rs.Ring
use wiznet_rs.Exec.{Quiet, Returned}
use wiznet_rs.Backend
use wiznet_rs.Backend.{BackendTick, Socket, tcp}
use wiznet_rs.Backend.Sound.{SameUse, Settled, slot_run_lem}
use wiznet_rs.Chip.State.{BulkOp}
use wiznet_rs.Chip.Service.{run_sockets, finish_bulk}
use wiznet_rs.Chip.Round.{Succeeds, AllValid, RingsValid, run_sockets_lem}
use wiznet_rs.Chip.Deliver.{finish_bulk-Appended, finish_bulk-Holds}
use wiznet_rs.Ring.Produce.{Appended}
use wiznet_rs.Udp.Queue.{Holds}
use wiznet_rs.Transceiver.Execute.{in_flight}
use wiznet_rs.Transceiver.Ready.{IsReady}
use wiznet_rs.Examples.Frames.{peer, empty, empty-Holds}
use wiznet_rs.Transceiver.Block.{
  BlockAddress, socket1_register, socket1_tx_buffer, socket1_rx_buffer,
}
use wiznet_rs.Tick.{BulkKind, closed}
use wiznet_rs.Tick.Ready.{Ready}
use wiznet_rs.Safe.{Post}
use wiznet_rs.Tcp.Transfer.{receive}
use wiznet_rs.Tcp.Promise.{Promise, receive_lem}
use wiznet_rs.Examples.Bus.{scratch, scratch-IsSized, still, still-KeepsBuffers, bus, bus-IsReady}
use wiznet_rs.Prelude.{◌≡◌}
use wiznet_rs.Exec.{ok}
use wiznet_rs.Tick.{started}
use wiznet_rs.Chip.Relay.{Grown, receive-finish_bulk}
use wiznet_rs.Examples.Sockets.{block, closing_tick, closing_tick-Ready}

-- A slot whose handle is gone and whose socket has closed.
abbrev given_up : BackendTick still
given_up = record {
  trans = bus;
  rings = closing_tick.rings;
  proto = record {
    block = block;
    state = tcp (record closing_tick.proto { status = closed; close_requested = false });
    release_requested = true;
  };
}

given_up-Ready : Ready still 8 given_up
given_up-Ready =
    let k = closing_tick-Ready in
    record { bus = k.bus; rx_valid = k.rx_valid; tx_valid = k.tx_valid; proto_ok = tt }

slot_run_lem_example :
    let mid = (Backend.run_state still given_up.proto.state given_up).1.proto in
    let (r, s') = Backend.run still given_up in
    Quiet r
    × Ready still 8 s'
    × SameUse given_up.proto.state mid.state
    × Settled given_up.proto mid.state s'.proto
slot_run_lem_example = slot_run_lem still still-KeepsBuffers 8 given_up given_up-Ready

-- That slot under its lock, and the same slot held elsewhere.
abbrev two_sockets : List Socket
two_sockets =
    record { backend = record { cell = given_up.proto; busy = true }; rings = closing_tick.rings }
    ∷ record {
      backend = record { cell = given_up.proto; busy = false };
      rings = closing_tick.rings;
    }
    ∷ []

run_sockets_lem_example :
    let (r, (ss', t')) = run_sockets still 0 two_sockets bus in
    Succeeds r × AllValid ss' × IsReady still 8 t'
run_sockets_lem_example =
    let k = closing_tick-Ready in
    let v : RingsValid closing_tick.rings = (k.rx_valid, k.tx_valid) in
    run_sockets_lem still still-KeepsBuffers 8 0 two_sockets bus (v, (v, tt)) bus-IsReady

finish_bulk-Appended_example :
    let op : BulkOp = record {
      idx = 0;
      kind = BulkKind.receive;
      block = block;
      pointer = 9;
      len = 2;
    } in
    let (r, (t, rx')) =
      finish_bulk still op
        (record { cell = in_flight scratch; busy = false }, closing_tick.rings.rx) in
    Returned r × IsReady still 8 t × Appended closing_tick.rings.rx rx' (0x17 ∷ 0 ∷ [])
unfolding Ring.free Ring.len
finish_bulk-Appended_example =
    finish_bulk-Appended still still-KeepsBuffers 8 scratch scratch-IsSized closing_tick.rings.rx 0
      9 2 block closing_tick-Ready.rx_valid (omega arith) room
  where
    room : 2 ≤ Ring.free closing_tick.rings.rx
    room = omega arith

finish_bulk-Holds_example :
    let kind = BulkKind.receive_datagram peer.ip peer.port in
    let op : BulkOp = record { idx = 0; kind = kind; block = block; pointer = 9; len = 2 } in
    let (r, (t, rx')) =
      finish_bulk still op (record { cell = in_flight scratch; busy = false }, empty) in
    Returned r
    × IsReady still 8 t
    × Holds rx' (record { payload = 0x17 ∷ 0 ∷ []; peer = peer } ∷ [])
unfolding Ring.free Ring.len
finish_bulk-Holds_example =
    finish_bulk-Holds still still-KeepsBuffers 8 scratch scratch-IsSized empty 0 9 2 block peer []
      empty-Holds (omega arith) (omega arith) (omega arith) (omega arith) (omega arith)

receive_lem_example :
    let (r, s') = receive still block closing_tick in
    Post (Promise still still-KeepsBuffers 8 block) r s'
receive_lem_example = receive_lem still still-KeepsBuffers 8 block closing_tick closing_tick-Ready

received :
    receive still block closing_tick
    ≡ (ok (started BulkKind.receive 0x1700 4), (receive still block closing_tick).1)
unfolding receive wiznet_rs.Registers.Access.get_rx_received_size
    wiznet_rs.Transceiver.Execute.read_u16 wiznet_rs.Cell.with_lock_mut
    wiznet_rs.Transceiver.Execute.exec_transaction wiznet_rs.Transceiver.Batch.batch
    wiznet_rs.Transceiver.Block.create_header wiznet_rs.Transceiver.Batch.scatter
    wiznet_rs.Transceiver.Batch.slice Ring.free wiznet_rs.Registers.Access.get_rx_read_pointer
    wiznet_rs.Registers.Access.start_read_rx_buffer wiznet_rs.Transceiver.Async.start_read
received = refl

receive-finish_bulk_example :
    let s' = (receive still block closing_tick).1 in
    let op : BulkOp = record {
      idx = 0;
      kind = BulkKind.receive;
      block = block;
      pointer = 0x1700;
      len = 4;
    } in
    let (r, (t, rx')) = finish_bulk still op (s'.trans, s'.rings.rx) in
    Returned r × IsReady still 8 t × Grown 4 s'.rings.rx rx'
receive-finish_bulk_example =
    receive-finish_bulk still still-KeepsBuffers 8 block closing_tick
      (receive still block closing_tick).1 0 0x1700 4 closing_tick-Ready received
