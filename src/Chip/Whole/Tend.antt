-- ===== src/Chip/Whole/Tend.antt =====
-- wiznet-rs/src/lib.rs: `service` on a driver in order, whatever the transport
-- answers.
use wiznet_rs.Prelude.{
  ℕ, arith, ◌∙◌, Bool, true, false, not, List, Option, none, some, if◌then◌else◌,
}
use wiznet_rs.Exec.{Result, ok, err, panic, out_of_fuel, Exec, Returned, gets, modify, ◌>>=◌, ◌>>◌}
use wiznet_rs.Safe.{Safe, Safe-bind, Safe-pure, Safe-gets, Safe-if}
use wiznet_rs.Yields.{Given}
use wiznet_rs.Spi.{SpiDmaDevice, KeepsBuffers}
use wiznet_rs.Transceiver.Ready.{IsReady, read_u8-Safe, write_u8-Safe, write_bytes-Safe}
use wiznet_rs.Transceiver.Execute.{write_u32}
use wiznet_rs.Transceiver.Block.{Address}
use wiznet_rs.Chip.State.{
  BulkOp, NetworkConfig, OutputPin, W6100, Locked, is_link_up, physr, netlckr, shar, sipr, gar,
  subr, write_network, setup_network, link_of_status,
}
use wiznet_rs.Chip.Service.{
  run_sockets, set_bulk, record_bulk, note_bulk, visit_sockets, run, bulk_in_flight, network_config,
  set_dirty, configure, apply_config, link_lost, service,
}
use wiznet_rs.Chip.Round.{Succeeds, run_sockets_lem}
use wiznet_rs.Chip.Whole.Mark.{Marked, run_sockets-Marked}
use wiznet_rs.Chip.Whole.Invariant.{LockedReady, ChipReady, Safe-with_device, Safe-on_transport}
use wiznet_rs.Chip.Whole.Reset.{reset-Safe}

module _ (spi : SpiDmaDevice) (keeps : KeepsBuffers spi) (size : ℕ) where
  write_u32-Safe : (addr : Address) (v : ℕ) → Safe (IsReady spi size) (write_u32 spi addr v)
  unfolding write_u32
  write_u32-Safe addr v = write_bytes-Safe spi keeps size addr _

  write_network-Safe :
      (out : OutputPin) (mac : List ℕ) (config : NetworkConfig)
      → Safe (IsReady spi size) (write_network spi out mac config)
  unfolding write_network
  write_network-Safe out mac config =
      Safe-bind _ _ (write_u8-Safe spi keeps size netlckr 0x3A) (λ _.
        Safe-bind _ _ (write_bytes-Safe spi keeps size shar mac) (λ _.
          Safe-bind _ _ (write_u32-Safe sipr config.ip) (λ _.
            Safe-bind _ _ (write_u32-Safe gar config.gateway) (λ _.
              Safe-bind _ _ (write_u32-Safe subr config.subnet)
                (λ _. write_u8-Safe spi keeps size netlckr 0xC5)))))

  module _ (out : OutputPin) (n : ℕ) where
    record_bulk-Marked :
        (op : Option BulkOp) (old : Option BulkOp) (busy : Bool)
        → Marked size n op
        → Marked size n old
        → Marked size n (record_bulk spi op (record { cell = old; busy = busy })).cell
    unfolding set_bulk
    record_bulk-Marked none old busy m k = k
    record_bulk-Marked (some op) old true m k = k
    record_bulk-Marked (some op) old false m k = m

    note_bulk-LockedReady :
        (r : Result (Option BulkOp)) (l : Locked spi out)
        → Succeeds r
        → Given (Marked size n) r
        → LockedReady spi out size n l
        → let (q, l') = note_bulk spi out r l in Returned q × LockedReady spi out size n l'
    note_bulk-LockedReady (ok op) l s m h = (
      tt,
      record {
        bus = h.bus;
        rings = h.rings;
        count = h.count;
        mark = record_bulk-Marked op l.bulk.cell l.bulk.busy m h.mark;
      },
    )
    note_bulk-LockedReady (err e) l s m h = absurd s
    note_bulk-LockedReady panic l s m h = absurd s
    note_bulk-LockedReady out_of_fuel l s m h = absurd s

    visit_sockets-Safe : Safe (LockedReady spi out size n) (visit_sockets spi out)
    visit_sockets-Safe = record {
      at = λ l h.
          let (r, (ss, t)) = run_sockets spi 0 l.sockets l.device.transport in
          let (succeeds, rings, bus) =
            run_sockets_lem spi keeps size 0 l.sockets l.device.transport h.rings h.bus in
          let (mark, same) =
            run_sockets-Marked spi keeps size n 0 l.sockets l.device.transport
              (omega (arith, h.count)) h.rings h.bus in
          note_bulk-LockedReady r
            (record l { device = record l.device { transport = t }; sockets = ss }) succeeds mark
            (record { bus = bus; rings = rings; count = same ∙ h.count; mark = h.mark });
    }

    run-Safe : Safe (ChipReady spi out size n) (run spi out)
    unfolding run
    run-Safe = Safe-with_device spi out size n (visit_sockets spi out) visit_sockets-Safe

    is_link_up-Safe : Safe (ChipReady spi out size n) (is_link_up spi out)
    unfolding is_link_up
    is_link_up-Safe =
        Safe-bind _ _
          (Safe-with_device spi out size n _
            (Safe-on_transport spi out size n _ (read_u8-Safe spi keeps size physr)))
          (λ status. Safe-pure (link_of_status status))

    setup_network-Safe :
        (config : NetworkConfig) → Safe (ChipReady spi out size n) (setup_network spi out config)
    unfolding setup_network
    setup_network-Safe config = record {
      at = λ w h.
          (Safe-with_device spi out size n _
              (Safe-on_transport spi out size n _ (write_network-Safe out w.mac config))).at
            w h;
    }

    -- A change of what the invariant does not speak of.
    set_dirty-Safe : (b : Bool) → Safe (ChipReady spi out size n) (set_dirty spi out b)
    set_dirty-Safe b = record {
      at = λ w h. (
        tt,
        record {
          unlocked = h.unlocked;
          bus = h.bus;
          rings = h.rings;
          count = h.count;
          mark = h.mark;
        },
      );
    }

    configure-Safe :
        (config : Option NetworkConfig) → Safe (ChipReady spi out size n) (configure spi out config)
    configure-Safe none = Safe-pure tt
    configure-Safe (some config) =
        Safe-bind _ _ (setup_network-Safe config) (λ _. set_dirty-Safe false)

    -- one of two actions, on the same driver
    either :
        (b : Bool) (m k : Exec (W6100 spi out) (Unit {0}))
        → Safe (ChipReady spi out size n) m
        → Safe (ChipReady spi out size n) k
        → (w : W6100 spi out) → ChipReady spi out size n w
        → let (r, w') = if b then m w else k w in Returned r × ChipReady spi out size n w'
    either true m k sm sk w h = sm.at w h
    either false m k sm sk w h = sk.at w h

    apply_config-Safe : Safe (ChipReady spi out size n) (apply_config spi out)
    unfolding network_config
    apply_config-Safe = record {
      at = λ w h.
          either w.config_dirty (configure spi out (network_config spi out w)) _
            (configure-Safe (network_config spi out w)) (Safe-pure tt) w h;
    }

    link_lost-Safe : (was_up : Bool) → Safe (ChipReady spi out size n) (link_lost spi out was_up)
    link_lost-Safe true = Safe-bind _ _ (reset-Safe spi keeps size out n) (λ _. set_dirty-Safe true)
    link_lost-Safe false = Safe-pure tt

    set_link-Safe :
        (up : Bool) → Safe (ChipReady spi out size n) (modify (λ v. record v { link_up = up }))
    set_link-Safe up = record {
      at = λ w h. (
        tt,
        record {
          unlocked = h.unlocked;
          bus = h.bus;
          rings = h.rings;
          count = h.count;
          mark = h.mark;
        },
      );
    }

    tend-Safe : Safe (ChipReady spi out size n) (do
      up ← is_link_up spi out
      was_up ← gets (λ v. v.link_up)
      modify (λ v. record v { link_up = up })
      if not up then link_lost spi out was_up else do apply_config spi out; run spi out)
    tend-Safe = Safe-bind _ _ is_link_up-Safe (λ up.
        Safe-bind _ _ (Safe-gets (λ v. v.link_up)) (λ was_up. Safe-bind _ _ (set_link-Safe up) (λ _.
          Safe-if (not up) _ _ (link_lost-Safe was_up)
            (Safe-bind _ _ apply_config-Safe (λ _. run-Safe)))))

    -- `service` returns and leaves the driver in order.
    pub service-Safe : Safe (ChipReady spi out size n) (service spi out)
    unfolding service
    service-Safe = record {
      at = λ w h. either (bulk_in_flight spi out w) _ _ (Safe-pure tt) tend-Safe w h;
    }
