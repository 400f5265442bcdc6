-- ===== src/Chip/Life/Steps.antt =====
-- wiznet-rs/src/lib.rs: the states that a driver gets to, from `new` on, by calls in any order.
use wiznet_rs.Prelude.{
  ◌⊎◌, inl, inr, ℕ, ◌≡◌, refl, sym, subst, ap, suc, ◌∙◌, Bool, true, false, ◌==◌, List, [], ◌∷◌,
  ◌++◌, Option, arith, length,
}
use wiznet_rs.Exec.{Error, Result, ok, err, panic, out_of_fuel, Returned}
use wiznet_rs.Spi.{DmaBuffers, SpiDmaDevice, KeepsBuffers}
use wiznet_rs.Transceiver.Sound.{IsSized}
use wiznet_rs.Transceiver.Execute as Execute
use wiznet_rs.Transceiver.Execute.{Transceiver, idle}
use wiznet_rs.Tcp.State
use wiznet_rs.Udp.State as UdpState
use wiznet_rs.Backend
use wiznet_rs.Backend.{SocketBackend, Socket, claim_tcp, claim_udp}
use wiznet_rs.Chip.State.{NetworkConfig, OutputPin, W6100, all_sockets}
use wiznet_rs.Chip.Reset as Reset
use wiznet_rs.Chip.Reset.{assembled, started, boot, reset}
use wiznet_rs.Chip.Service.{set_network_config, service, dma_complete}
use wiznet_rs.Chip.Open.{on_slots, open_first, open_tcp_connect, open_tcp_listen, open_udp}
use wiznet_rs.Chip.Round.{InOrder, AllValid}
use wiznet_rs.Chip.Whole.Invariant.{ChipReady}
use wiznet_rs.Chip.Whole.Reset.{reset-Safe}
use wiznet_rs.Chip.Whole.Tend.{service-Safe}
use wiznet_rs.Chip.Whole.Complete.{dma_complete_lem}
use wiznet_rs.Chip.Life.Handle.{HandleStep, handle-InOrder}
use wiznet_rs.Chip.Life.Open.{Storage, open_first-AllValid}

module _ (spi : SpiDmaDevice) (out : OutputPin) where
  -- One call: of the application, of a handle that it has, or of an interrupt handler.
  pub data Step (w : W6100 spi out) : W6100 spi out → Type 0 where
    serviced : Step w (service spi out w).1
    completed : Step w (dma_complete spi out w).1
    was_reset : Step w (reset spi out w).1
    configured : (config : NetworkConfig) → Step w (set_network_config spi out config w).1
    opened_connect :
        (addr port src_port : ℕ) (rx tx : List ℕ)
        → Storage rx
        → Storage tx
        → Step w (open_tcp_connect spi out addr port src_port rx tx w).1
    opened_listen :
        (port : ℕ) (rx tx : List ℕ)
        → Storage rx
        → Storage tx
        → Step w (open_tcp_listen spi out port rx tx w).1
    opened_udp :
        (src_port : ℕ) (rx tx : List ℕ)
        → Storage rx
        → Storage tx
        → Step w (open_udp spi out src_port rx tx w).1
    handled :
        (before after : List Socket) (s s' : Socket)
        → w.sockets ≡ before ++ s ∷ after
        → HandleStep s s'
        → Step w (record w { sockets = before ++ s' ∷ after })

  -- What calls make of the driver that `new` puts together over two buffers of `size` bytes; the
  -- first of them is the reset in `new`.
  pub data Reached (size : ℕ) : W6100 spi out → Type 0 where
    made :
        (dev : spi.Device) (pin : out.Pin) (scratch : DmaBuffers) (mac : List ℕ)
        → IsSized size scratch
        → Reached size
            (assembled spi out (record { cell = idle dev scratch; busy = false }) pin mac)
    next : (w w' : W6100 spi out) → Reached size w → Step w w' → Reached size w'

  replaced-AllValid :
      (before after : List Socket) (s s' : Socket)
      → (InOrder s.backend.cell.state s.rings → InOrder s'.backend.cell.state s'.rings)
      → AllValid (before ++ s ∷ after)
      → AllValid (before ++ s' ∷ after)
        × (length (before ++ s' ∷ after) ≡ length (before ++ s ∷ after))
  replaced-AllValid [] after s s' k v = ((k v.0, v.1), refl)
  replaced-AllValid (b ∷ before) after s s' k v =
      let (rest, same) = replaced-AllValid before after s s' k v.1 in ((v.0, rest), ap suc same)

  module _ (keeps : KeepsBuffers spi) (size : ℕ) where
    abbrev Fine : W6100 spi out → Type 0
    Fine = ChipReady spi out size 8

    -- A call on the slots alone.
    slots-Fine :
        (w : W6100 spi out) (ss : List Socket)
        → Fine w
        → AllValid ss
        → length ss ≡ length w.sockets
        → Fine (record w { sockets = ss })
    slots-Fine w ss h v same = record {
      unlocked = h.unlocked;
      bus = h.bus;
      rings = v;
      count = same ∙ h.count;
      mark = h.mark;
    }

    opened-Fine :
        (claim : SocketBackend → Bool × SocketBackend) (rx tx : List ℕ) (w : W6100 spi out)
        → Storage rx
        → Storage tx
        → Fine w
        → Fine (on_slots spi out (open_first claim rx tx 0) w).1
    opened-Fine claim rx tx w f g h =
        let (v, same) = open_first-AllValid claim rx tx f g 0 w.sockets h.rings in
        slots-Fine w _ h v same

    configured-Fine :
        (busy : Bool) (old : Option NetworkConfig) (config : NetworkConfig) (w : W6100 spi out)
        → Fine w
        → Fine
            (set_network_config spi out config
              (record w { config = record { cell = old; busy = busy } })).1
    unfolding set_network_config
    configured-Fine true old config w h = record {
      unlocked = h.unlocked;
      bus = h.bus;
      rings = h.rings;
      count = h.count;
      mark = h.mark;
    }
    configured-Fine false old config w h = record {
      unlocked = h.unlocked;
      bus = h.bus;
      rings = h.rings;
      count = h.count;
      mark = h.mark;
    }

    Step-Fine : (w w' : W6100 spi out) → Step w w' → Fine w → Fine w'
    unfolding open_tcp_connect open_tcp_listen open_udp
    Step-Fine w _ serviced h = ((service-Safe spi keeps size out 8).at w h).1
    Step-Fine w _ completed h = (dma_complete_lem spi keeps size out 8 w h).1
    Step-Fine w _ was_reset h = ((reset-Safe spi keeps size out 8).at w h).1
    Step-Fine w _ (configured config) h = configured-Fine w.config.busy w.config.cell config w h
    Step-Fine w _ (opened_connect addr port src_port rx tx f g) h =
        opened-Fine (claim_tcp (State.new_connect addr port src_port)) rx tx w f g h
    Step-Fine w _ (opened_listen port rx tx f g) h =
        opened-Fine (claim_tcp (State.new_listen port)) rx tx w f g h
    Step-Fine w _ (opened_udp src_port rx tx f g) h =
        opened-Fine (claim_udp (UdpState.bind src_port)) rx tx w f g h
    Step-Fine w _ (handled before after s s' e k) h =
        let (v, same) =
          replaced-AllValid before after s s' (handle-InOrder s s' k) (subst AllValid e h.rings) in
        slots-Fine w _ h v (same ∙ ap length (sym e))

    slots-AllValid : AllValid all_sockets
    unfolding Backend.new
    slots-AllValid = (tt, (tt, (tt, (tt, (tt, (tt, (tt, (tt, tt))))))))

    made-Fine :
        (dev : spi.Device) (pin : out.Pin) (scratch : DmaBuffers) (mac : List ℕ)
        → IsSized size scratch
        → Fine (assembled spi out (record { cell = idle dev scratch; busy = false }) pin mac)
    made-Fine dev pin scratch mac z = record {
      unlocked = refl;
      bus = record { unlocked = refl; settled = z };
      rings = slots-AllValid;
      count = refl;
      mark = tt;
    }

    Reached-Fine : (w : W6100 spi out) → Reached size w → Fine w
    Reached-Fine _ (made dev pin scratch mac z) = made-Fine dev pin scratch mac z
    Reached-Fine _ (next w w' k step) = Step-Fine w w' step (Reached-Fine w k)

    -- On a transport that keeps the buffers' sizes, take any driver that `new` puts together over
    -- two scratch buffers of the same size, and any sequence of calls of `service`,
    -- `dma_complete`, `reset`, `set_network_config`, the three ways to open a socket, with buffers
    -- that are not empty and whose size is a `usize` and divides 2^32, and the calls of the
    -- handles, whatever the transport answers. The driver is in order: its bus is ready, all rings
    -- in use are valid, and a recorded transfer is one of the eight sockets' and fits the scratch
    -- buffers. From there `service` and `reset` return without a panic, and `dma_complete` returns
    -- `Ok`.
    pub driver_lem :
        (w : W6100 spi out)
        → Reached size w
        → ChipReady spi out size 8 w
          × Returned (service spi out w).0
          × ((dma_complete spi out w).0 ≡ ok tt)
          × Returned (reset spi out w).0
    driver_lem w k =
        let h = Reached-Fine w k in
        (
          h,
          ((service-Safe spi keeps size out 8).at w h).0,
          (dma_complete_lem spi keeps size out 8 w h).0,
          ((reset-Safe spi keeps size out 8).at w h).0,
        )

    -- What `new` makes of `w`: a reset that succeeds gives the driver, one that fails an error.
    abbrev pub Started : W6100 spi out → Result (W6100 spi out) → Type 0
    Started w r =
        ((w' : W6100 spi out) × (reset spi out w ≡ (ok tt, w')) × (r ≡ ok w') × Reached size w')
        ⊎ ((e : Error) × ((reset spi out w).0 ≡ err e) × (r ≡ err e))

    started-Started :
        (w : W6100 spi out) (m : Result (Unit {0}) × W6100 spi out)
        → reset spi out w ≡ m
        → Returned m.0
        → Reached size m.1
        → Started w (started spi out m)
    started-Started w (ok u, w') e back k = inl (w', e, refl, k)
    started-Started w (err x, w') e back k = inr (x, ap (λ p. p.0) e, refl)
    started-Started w (panic, w') e back k = absurd back
    started-Started w (out_of_fuel, w') e back k = absurd back

    -- On a transport that keeps the buffers' sizes, and with two scratch buffers of the same size,
    -- `new` returns without a panic whatever the transport answers. Either the reset of the driver
    -- that it put together succeeds, and the driver it returns is the one that the reset left, one
    -- that `driver_lem` speaks of; or the reset fails, and `new` returns its error.
    pub new_lem :
        (dev : spi.Device) (pin : out.Pin) (scratch : DmaBuffers) (mac : List ℕ)
        → IsSized size scratch
        → Started
            (assembled spi out (record { cell = idle dev scratch; busy = false }) pin mac)
            (Reset.new spi out dev pin scratch mac)
    unfolding Reset.new Execute.new
    new_lem dev pin scratch mac z =
        let same : (length scratch.rx == length scratch.tx) ≡ true =
          ground (arith, z.rx_size, z.tx_size) in
        let w = assembled spi out (record { cell = idle dev scratch; busy = false }) pin mac in
        rw same (
          started-Started w (reset spi out w) refl
            ((reset-Safe spi keeps size out 8).at w (made-Fine dev pin scratch mac z)).0
            (next w (reset spi out w).1 (made dev pin scratch mac z) was_reset))
