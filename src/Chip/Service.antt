-- ===== src/Chip/Service.antt =====
-- wiznet-rs/src/lib.rs: `run`, `service` and the completion of a bulk transfer.
use wiznet_rs.Prelude.{
  ℕ, zero, suc, ◌+◌, ◌%◌, ◌^◌, Bool, true, false, not, List, [], ◌∷◌, ◌++◌, Option, none, some,
  if◌then◌else◌,
}
use wiznet_rs.Exec.{
  would_block, other, Result, ok, err, panic, out_of_fuel, Exec, pure, gets, modify, map_ok, ◌>>=◌,
  ◌>>◌,
}
use wiznet_rs.Cell.{AtomicCell, with_lock_mut_env}
use wiznet_rs.Spi.{SpiDmaDevice}
use wiznet_rs.Bytes.{u16_bytes, u32_bytes}
use wiznet_rs.Transceiver.Block.{BlockAddress}
use wiznet_rs.Transceiver.Execute.{Transceiver}
use wiznet_rs.Transceiver.Async.{finish_read, finish_write}
use wiznet_rs.Ring
use wiznet_rs.Ring.{SpscRing}
use wiznet_rs.Registers.Codes.{SocketCommand, recv_flag}
use wiznet_rs.Registers.Access.{
  set_rx_read_pointer, set_tx_write_pointer, send_sock_command, clear_interrupts,
}
use wiznet_rs.Tick.{BulkKind, BulkAction, started, SocketRings}
use wiznet_rs.Backend
use wiznet_rs.Backend.{SocketBackend, Socket}
use wiznet_rs.Chip.State.{
  NetworkConfig, BulkOp, OutputPin, W6100, Locked, with_device, is_link_up, setup_network,
}
use wiznet_rs.Chip.Reset.{clear_bulk, reset}

module _ (spi : SpiDmaDevice) where
  -- A slot's tick under its lock, with the block that a bulk transfer is recorded with.
  unfoldable pub run_socket :
      Exec (AtomicCell SocketBackend × (Transceiver spi × SocketRings)) (BulkAction × BlockAddress)
  run_socket = with_lock_mut_env (λ (b, (t, rings)).
      let (r, s) = Backend.run spi (record { trans = t; rings = rings; proto = b }) in
      (map_ok (λ a. (a, s.proto.block)) r, (s.proto, (s.trans, s.rings))))

  abbrev pub Visit : Type 0
  Visit = Result (Option BulkOp) × (List Socket × Transceiver spi)

  abbrev behind : Socket → Visit → Visit
  behind s (r, (ss, t)) = (r, (s ∷ ss, t))

  -- What the loop does with a slot's outcome: a started transfer ends it, and so does an error
  -- other than `WouldBlock`; `WouldBlock` is a slot held elsewhere, or one with nothing to do yet.
  abbrev pub after :
      ℕ
      → List Socket
      → (Transceiver spi → Visit)
      → Result (BulkAction × BlockAddress)
        × (AtomicCell SocketBackend × (Transceiver spi × SocketRings))
      → Visit
  after idx ss next (ok (BulkAction.none, block), (b, (t, rings))) =
      behind (record { backend = b; rings = rings }) (next t)
  after idx ss next (ok (started kind pointer len, block), (b, (t, rings))) = (
    ok (some (record { idx = idx; kind = kind; block = block; pointer = pointer; len = len })),
    (record { backend = b; rings = rings } ∷ ss, t),
  )
  after idx ss next (err would_block, (b, (t, rings))) =
      behind (record { backend = b; rings = rings }) (next t)
  after idx ss next (err (other e), (b, (t, rings))) =
      (err (other e), (record { backend = b; rings = rings } ∷ ss, t))
  after idx ss next (panic, (b, (t, rings))) =
      (panic, (record { backend = b; rings = rings } ∷ ss, t))
  after idx ss next (out_of_fuel, (b, (t, rings))) =
      (out_of_fuel, (record { backend = b; rings = rings } ∷ ss, t))

  -- The `for` of `run` from the slot `idx` on; the result is the transfer that was started.
  unfoldable pub run_sockets : ℕ → List Socket → Transceiver spi → Visit
  unfolding run_socket
  run_sockets idx [] t = (ok none, ([], t))
  run_sockets idx (s ∷ ss) t =
      let next = λ (u : Transceiver spi). run_sockets (idx + 1) ss u in
      after idx ss next (run_socket (s.backend, (t, s.rings)))

  -- `if let Ok(mut guard) = self.bulk.lock_mut() { *guard.as_mut() = Some(op); }`
  unfoldable pub set_bulk : BulkOp → AtomicCell (Option BulkOp) → AtomicCell (Option BulkOp)
  set_bulk op b = if b.busy then b else record b { cell = some op }

  abbrev pub record_bulk : Option BulkOp → AtomicCell (Option BulkOp) → AtomicCell (Option BulkOp)
  record_bulk none b = b
  record_bulk (some op) b = set_bulk op b

  -- the local frame header that goes before a received payload
  abbrev pub datagram_header : ℕ → ℕ → ℕ → List ℕ
  datagram_header len src_ip src_port =
      u16_bytes (len % 2 ^ 16) ++ u32_bytes src_ip ++ u16_bytes src_port

  -- `rings.rx.write(payload);`
  abbrev pub take_payload : List ℕ → SpscRing → SpscRing
  take_payload payload rx = (Ring.write rx payload).1

  abbrev pub Finish : Type 0
  Finish = Exec (Transceiver spi × SpscRing) (Unit {0})

  abbrev pub on_bus : {A : Type 0} → Exec (Transceiver spi) A → Exec (Transceiver spi × SpscRing) A
  on_bus m (t, rx) = let (r, t') = m t in (r, (t', rx))

  abbrev pub on_ring : (SpscRing → SpscRing) → Finish
  on_ring f (t, rx) = (ok tt, (t, f rx))

  -- the chip told of what was taken out of its RX buffer
  abbrev pub commit_rx : BlockAddress → ℕ → Finish
  commit_rx block end = do
    on_bus (set_rx_read_pointer spi block end)
    on_bus (send_sock_command spi block SocketCommand.receive)
    on_bus (clear_interrupts spi block recv_flag)

  unfoldable pub finish_kind : BulkKind → BlockAddress → (len end : ℕ) → Finish
  finish_kind BulkKind.receive block len end = do
    finish_read spi len take_payload
    commit_rx block end
  finish_kind (BulkKind.receive_datagram src_ip src_port) block len end = do
    on_ring (take_payload (datagram_header len src_ip src_port))
    finish_read spi len take_payload
    on_ring Ring.commit_frame
    commit_rx block end
  finish_kind BulkKind.transmit block len end = do
    on_bus (finish_write spi)
    on_bus (set_tx_write_pointer spi block end)
    on_bus (send_sock_command spi block SocketCommand.send)

  -- `finish_bulk`, on the rx ring of the transfer's socket
  unfoldable pub finish_bulk : BulkOp → Finish
  unfolding finish_kind
  finish_bulk op = finish_kind op.kind op.block op.len ((op.pointer + op.len % 2 ^ 16) % 2 ^ 16)

  -- The same on the sockets; an index out of range panics.
  unfoldable pub finish_at :
      ℕ
      → BulkOp
      → List Socket
      → Transceiver spi
      → Result (Unit {0}) × (List Socket × Transceiver spi)
  unfolding finish_bulk
  finish_at i op [] t = (panic, ([], t))
  finish_at zero op (s ∷ ss) t =
      let (r, (t', rx)) = finish_bulk op (t, s.rings.rx) in
      (r, (record s { rings = record s.rings { rx = rx } } ∷ ss, t'))
  finish_at (suc i) op (s ∷ ss) t = let (r, (rest, t')) = finish_at i op ss t in (r, (s ∷ rest, t'))

  module _ (out : OutputPin) where
    -- the transfer that the loop started, recorded
    abbrev pub note_bulk : Result (Option BulkOp) → Exec (Locked spi out) (Unit {0})
    note_bulk (ok op) l = (ok tt, record l { bulk = record_bulk op l.bulk })
    note_bulk (err e) l = (err e, l)
    note_bulk panic l = (panic, l)
    note_bulk out_of_fuel l = (out_of_fuel, l)

    abbrev pub visit_sockets : Exec (Locked spi out) (Unit {0})
    visit_sockets l =
        let (r, (ss, t)) = run_sockets 0 l.sockets l.device.transport in
        note_bulk r (record l { device = record l.device { transport = t }; sockets = ss })

    unfoldable pub run : Exec (W6100 spi out) (Unit {0})
    unfolding run_sockets set_bulk
    run = with_device spi out visit_sockets

    -- A busy cell counts as a transfer in flight.
    unfoldable pub bulk_in_flight : W6100 spi out → Bool
    bulk_in_flight w = if w.bulk.busy then true else is_some w.bulk.cell
      where
        is_some : Option BulkOp → Bool
        is_some none = false
        is_some (some op) = true

    unfoldable pub set_network_config : NetworkConfig → Exec (W6100 spi out) (Unit {0})
    set_network_config config w = if w.config.busy then (err would_block, w) else (
      ok tt,
      record w { config = record w.config { cell = some config }; config_dirty = true },
    )

    -- A busy cell counts as no configuration.
    unfoldable pub network_config : W6100 spi out → Option NetworkConfig
    network_config w = if w.config.busy then none else w.config.cell

    abbrev Driver : Type 0 → Type 0
    Driver A = Exec (W6100 spi out) A

    abbrev pub set_dirty : Bool → Driver (Unit {0})
    set_dirty b = modify (λ w. record w { config_dirty = b })

    abbrev pub configure : Option NetworkConfig → Driver (Unit {0})
    configure none = pure tt
    configure (some config) = do setup_network spi out config; set_dirty false

    abbrev pub apply_config : Driver (Unit {0})
    apply_config w = if w.config_dirty then configure (network_config w) w else (ok tt, w)

    -- the link was up before, or not
    abbrev pub link_lost : Bool → Driver (Unit {0})
    link_lost true = do reset spi out; set_dirty true
    link_lost false = pure tt

    unfoldable pub service : Driver (Unit {0})
    unfolding bulk_in_flight network_config run
    service w =
        if bulk_in_flight w
        then (ok tt, w)
        else (do
          up ← is_link_up spi out
          was_up ← gets (λ v. v.link_up)
          modify (λ v. record v { link_up = up })
          if not up then link_lost was_up else do apply_config; run)
            w

    -- `let _ = …`: an error is dropped.
    abbrev pub ignored : Result (Unit {0}) → Result (Unit {0})
    ignored (err e) = ok tt
    ignored r = r

    abbrev pub quietly : Driver (Unit {0}) → Driver (Unit {0})
    quietly m w = let (r, w') = m w in (ignored r, w')

    abbrev pub finish_locked : BulkOp → Exec (Locked spi out) (Unit {0})
    finish_locked op l =
        let (r, (ss, t)) = finish_at op.idx op l.sockets l.device.transport in
        (r, record l { device = record l.device { transport = t }; sockets = ss })

    unfoldable pub complete : Option BulkOp → Driver (Unit {0})
    unfolding finish_at clear_bulk service
    complete none = pure tt
    complete (some op) = do
      quietly (with_device spi out (finish_locked op))
      modify (λ v. record v { bulk = clear_bulk v.bulk })
      quietly service

    unfoldable pub dma_complete : Driver (Unit {0})
    unfolding complete
    dma_complete w = if w.bulk.busy then (ok tt, w) else complete w.bulk.cell w
