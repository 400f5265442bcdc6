-- ===== src/Chip/Reset.antt =====
-- wiznet-rs/src/lib.rs: `reset` and `new`.
use wiznet_rs.Prelude.{
  ℕ, zero, suc, Bool, false, List, [], ◌∷◌, Option, none, some, ◌==◌, if◌then◌else◌,
}
use wiznet_rs.Exec.{
  spi_error, pin_error, unexpected_response, Error, other, Result, ok, err, panic, out_of_fuel,
  Exec, pure, raise, map_ok, ◌>>=◌, ◌>>◌,
}
use wiznet_rs.Cell
use wiznet_rs.Cell.{AtomicCell, with_lock_mut_env}
use wiznet_rs.Spi.{DmaBuffers, SpiDmaDevice}
use wiznet_rs.Transceiver.Batch.{delay_ns}
use wiznet_rs.Transceiver.Execute as Execute
use wiznet_rs.Transceiver.Execute.{Transceiver, transaction, read_u16, write_u8}
use wiznet_rs.Transceiver.Async.{abort}
use wiznet_rs.Tick.{SocketRings}
use wiznet_rs.Backend
use wiznet_rs.Backend.{SocketBackend, Socket}
use wiznet_rs.Chip.State.{
  cidr, ver, sycr1, chplckr, simr, BulkOp, OutputPin, W6100, Locked, with_device, on_transport,
  all_sockets,
}

abbrev pub max_reset_wait_iterations : ℕ
max_reset_wait_iterations = 100

-- `.map_err(|_| Error::Other(e))`
abbrev pub map_err {ℓ} : {A : Type ℓ} → Error → Result A → Result A
map_err e (ok a) = ok a
map_err e (err x) = err e
map_err e panic = panic
map_err e out_of_fuel = out_of_fuel

-- `if let Ok(mut bulk) = self.bulk.lock_mut() { *bulk.as_mut() = None; }`
unfoldable pub clear_bulk : AtomicCell (Option BulkOp) → AtomicCell (Option BulkOp)
clear_bulk b = if b.busy then b else record b { cell = none }

module _ (spi : SpiDmaDevice) where
  abbrev pub delay : Exec (Transceiver spi) (Unit {0})
  delay t =
      let (r, t') = transaction spi (delay_ns 1_000_000 ∷ []) t in
      (map_err (other spi_error) (map_ok (λ _. tt) r), t')

  -- The wait for the chip's id, with the rounds that are left before it gives up.
  unfoldable pub wait_for_chip : ℕ → Exec (Transceiver spi) (Unit {0})
  wait_for_chip zero t =
      (do
        id ← read_u16 spi cidr
        if id == 0x6100 then pure tt else raise (other unexpected_response))
        t
  wait_for_chip (suc left) t =
      let again = wait_for_chip left in
      (do id ← read_u16 spi cidr; if id == 0x6100 then pure tt else (delay >> again)) t

  unfoldable pub check_version : Exec (Transceiver spi) (Unit {0})
  check_version = do
    version ← read_u16 spi ver
    if version == 0x4661 then pure tt else raise (other unexpected_response)

  unfoldable pub enable_chip : Exec (Transceiver spi) (Unit {0})
  enable_chip = do
    write_u8 spi chplckr 0xCE
    write_u8 spi sycr1 0b10000000
    write_u8 spi chplckr 0x00
    write_u8 spi simr 0xFF

  -- `socket.backend.lock_mut()?.as_mut().reset(&device.transport)?`
  unfoldable pub reset_socket :
      SocketRings → Exec (AtomicCell SocketBackend × Transceiver spi) (Unit {0})
  reset_socket rings = with_lock_mut_env (λ (b, t).
      let (r, s) = Backend.reset spi (record { trans = t; rings = rings; proto = b }) in
      (r, (s.proto, s.trans)))

  abbrev pub put_back :
      Socket
      → List Socket
      → Result (Unit {0}) × (AtomicCell SocketBackend × Transceiver spi)
      → (Transceiver spi → Result (Unit {0}) × (List Socket × Transceiver spi))
      → Result (Unit {0}) × (List Socket × Transceiver spi)
  put_back s ss (ok _, (b, t)) next =
      let (r, (rest, t')) = next t in (r, (record s { backend = b } ∷ rest, t'))
  put_back s ss (r, (b, t)) next = (r, (record s { backend = b } ∷ ss, t))

  unfoldable pub reset_sockets :
      List Socket → Transceiver spi → Result (Unit {0}) × (List Socket × Transceiver spi)
  unfolding reset_socket
  reset_sockets [] t = (ok tt, ([], t))
  reset_sockets (s ∷ ss) t =
      let next = λ (u : Transceiver spi). reset_sockets ss u in
      put_back s ss (reset_socket s.rings (s.backend, t)) next

  module _ (out : OutputPin) where
    -- a write of the pin; its failure is `PinError`
    abbrev pub drive : (out.Pin → Bool × out.Pin) → Exec (Locked spi out) (Unit {0})
    drive set l =
        let (done, pin) = set l.device.rst in
        (
          if done then ok tt else err (other pin_error),
          record l { device = record l.device { rst = pin } },
        )

    -- `abort` and the bulk marker
    abbrev pub tear_down : Exec (Locked spi out) (Unit {0})
    tear_down l = (
      ok tt,
      record l {
        device = record l.device { transport = abort spi l.device.transport };
        bulk = clear_bulk l.bulk;
      },
    )

    abbrev pub on_sockets : Exec (Locked spi out) (Unit {0})
    on_sockets l =
        let (r, (ss, t)) = reset_sockets l.sockets l.device.transport in
        (r, record l { device = record l.device { transport = t }; sockets = ss })

    unfoldable pub reset_locked : Exec (Locked spi out) (Unit {0})
    unfolding clear_bulk wait_for_chip check_version enable_chip reset_sockets
    reset_locked = do
      tear_down
      drive out.set_low
      on_transport spi out delay
      drive out.set_high
      on_transport spi out (wait_for_chip max_reset_wait_iterations)
      on_transport spi out check_version
      on_sockets
      on_transport spi out enable_chip

    unfoldable pub reset : Exec (W6100 spi out) (Unit {0})
    unfolding reset_locked
    reset = with_device spi out reset_locked

    abbrev pub assembled : Transceiver spi → out.Pin → List ℕ → W6100 spi out
    assembled t pin mac = record {
      device = Cell.new (record { transport = t; rst = pin });
      mac = mac;
      config = Cell.new none;
      config_dirty = false;
      link_up = false;
      sockets = all_sockets;
      bulk = Cell.new none;
    }

    abbrev pub started : Result (Unit {0}) × W6100 spi out → Result (W6100 spi out)
    started (ok _, w) = ok w
    started (err e, w) = err e
    started (panic, w) = panic
    started (out_of_fuel, w) = out_of_fuel

    abbrev pub boot : Option (Transceiver spi) → out.Pin → List ℕ → Result (W6100 spi out)
    boot none pin mac = panic
    boot (some t) pin mac = started (reset (assembled t pin mac))

    unfoldable pub new : spi.Device → out.Pin → DmaBuffers → List ℕ → Result (W6100 spi out)
    unfolding reset Execute.new
    new dev pin scratch mac = boot (Execute.new spi dev scratch) pin mac
