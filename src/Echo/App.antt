-- ===== src/Echo/App.antt =====
-- examples/echo/src/main.rs: `main` after the set-up of the board, from one sleep to the next, and
-- the interrupt handlers.
use wiznet_rs.Prelude.{
  ℕ, zero, suc, ◌+◌, ◌*◌, Bool, true, List, [], ◌∷◌, Option, none, some, if◌then◌else◌, replicate,
}
use wiznet_rs.Exec.{Result, ok, err, panic, Exec, modify, ◌>>=◌, ◌>>◌}
use wiznet_rs.Spi.{SpiDmaDevice}
use wiznet_rs.Ring
use wiznet_rs.Udp.Frame.{SocketAddr}
use wiznet_rs.Backend.{Socket}
use wiznet_rs.Chip.State.{OutputPin, W6100, NetworkConfig}
use wiznet_rs.Chip.Service as Chip
use wiznet_rs.Chip.Open.{open_tcp_listen, open_udp, tcp_reconnect, udp_reconnect}
use wiznet_rs.Echo.Udp.{udp_echo_loop}
use wiznet_rs.Echo.Main.{Led, ignored, tcp_wake}

-- `.expect(…)`
abbrev expected : {S A : Type 0} → Result A × S → Result A × S
expected (err e, s) = (panic, s)
expected p = p

abbrev expect : {S A : Type 0} → Exec S A → Exec S A
expect m s = expected (m s)

-- `u32::from_be_bytes`
abbrev ipv4 : (a b c d : ℕ) → ℕ
ipv4 a b c d = ((a * 256 + b) * 256 + c) * 256 + d

abbrev pub address : NetworkConfig
address = record {
  ip = ipv4 192 168 10 10;
  gateway = ipv4 192 168 10 1;
  subnet = ipv4 255 255 255 0;
}

abbrev ring_storage : List ℕ
ring_storage = replicate 512 0

-- A body on the slot of a handle, which may change `E` too. A handle borrows its slot, so the
-- index is in range.
abbrev on_slot : {E A : Type 0} → ℕ → Exec (Socket × E) A → Exec (List Socket × E) A
on_slot i m ([], e) = (panic, ([], e))
on_slot zero m (s ∷ ss, e) = let (r, (s', e')) = m (s, e) in (r, (s' ∷ ss, e'))
on_slot (suc i) m (s ∷ ss, e) = let (r, (rest, e')) = on_slot i m (ss, e) in (r, (s ∷ rest, e'))

-- Phase 1 waits for the link, phase 3 serves it; phase 2 is the step between them.
pub data Phase : Type 0 where
  waiting serving : Phase

-- The timer and the INT pin that the handlers own, with what clears their flags: parameters.
pub record Board : Type 1 where
  pub Timer : Type 0
  pub IntPin : Type 0
  pub clear_interrupt : Timer → Timer
  pub clear_interrupt_pending_bit : IntPin → IntPin

module _ (spi : SpiDmaDevice) (out : OutputPin) (led : Led) where
  -- The locals of `main`, the chip, and whether the storage of a socket's rings was handed out.
  pub record App : Type 0 where
    pub chip : W6100 spi out
    pub lamp : led.Pin
    pub phase : Phase
    pub socket : Option ℕ
    pub udp : Option ℕ
    pub tcp_storage_taken : Bool
    pub udp_storage_taken : Bool
    pub buf : List ℕ
    pub len : ℕ
    pub off : ℕ
    pub udp_buf : List ℕ
    pub udp_pending : Option (ℕ × SocketAddr)

  abbrev on_chip : {A : Type 0} → Exec (W6100 spi out) A → Exec App A
  on_chip m a = let (r, w) = m a.chip in (r, record a { chip = w })

  abbrev at : {A : Type 0} → ℕ → Exec (Socket × App) A → Exec App A
  at i m a =
      let (r, (ss, b)) = on_slot i m (a.chip.sockets, a) in
      (r, record b { chip = record b.chip { sockets = ss } })

  -- a call on a handle alone
  abbrev call : {A : Type 0} → Exec Socket A → Exec (Socket × App) A
  call m (s, a) = let (r, s') = m s in (r, (s', a))

  -- `StaticCell::init`, which panics on the second call, and the opening of the listener
  abbrev open_listener : Exec App (Unit {0})
  open_listener a =
      if a.tcp_storage_taken
      then (panic, a)
      else (do
        i ← expect (on_chip (open_tcp_listen spi out 5555 ring_storage ring_storage))
        modify (λ b. record b { socket = some i }))
          (record a { tcp_storage_taken = true })

  abbrev open_echo_udp : Exec App (Unit {0})
  open_echo_udp a =
      if a.udp_storage_taken
      then (panic, a)
      else (do
        i ← expect (on_chip (open_udp spi out 5556 ring_storage ring_storage))
        modify (λ b. record b { udp = some i }))
          (record a { udp_storage_taken = true })

  unfoldable pub bring_up_tcp : Option ℕ → Exec App (Unit {0})
  bring_up_tcp none = open_listener
  bring_up_tcp (some i) = expect (at i (call tcp_reconnect))

  unfoldable pub bring_up_udp : Option ℕ → Exec App (Unit {0})
  bring_up_udp none = open_echo_udp
  bring_up_udp (some i) = expect (at i (call udp_reconnect))

  -- Phase 2, and the carry-overs that phase 3 starts with
  unfoldable pub bring_up : Exec App (Unit {0})
  unfolding bring_up_tcp bring_up_udp
  bring_up = do
    expect (on_chip (Chip.set_network_config spi out address))
    λ a. bring_up_tcp a.socket a
    λ a. bring_up_udp a.udp a
    modify (λ a. record a {
      phase = serving;
      buf = replicate 128 0;
      len = 0;
      off = 0;
      udp_buf = replicate 512 0;
      udp_pending = none;
    })

  -- `socket.as_ref().unwrap()`
  abbrev with_handle : Option ℕ → (ℕ → Exec App (Unit {0})) → Exec App (Unit {0})
  with_handle none body a = (panic, a)
  with_handle (some i) body a = body i a

  abbrev tcp_side : Exec (Socket × App) (Unit {0})
  tcp_side (s, a) =
      let (r, t) = tcp_wake led (record {
        echo = record { sock = s; buf = a.buf; len = a.len; off = a.off };
        lamp = a.lamp;
      }) in
      (
        r,
        (
          t.echo.sock,
          record a { lamp = t.lamp; buf = t.echo.buf; len = t.echo.len; off = t.echo.off },
        ),
      )

  abbrev udp_side : Exec (Socket × App) (Unit {0})
  udp_side (s, a) =
      let (r, u) =
        udp_echo_loop (suc (Ring.frames s.rings.rx))
          (record { rings = s.rings; udp_buf = a.udp_buf; udp_pending = a.udp_pending }) in
      (
        r,
        (
          record s { rings = u.rings },
          record a { udp_buf = u.udp_buf; udp_pending = u.udp_pending },
        ),
      )

  -- the body of the inner `while`, up to its sleep
  unfoldable pub wake : Exec App (Unit {0})
  unfolding tcp_wake udp_echo_loop
  wake = do
    λ a. with_handle a.socket (λ i. at i tcp_side) a
    λ a. with_handle a.udp (λ i. at i udp_side) a

  abbrev link_dropped : Exec App (Unit {0})
  link_dropped = modify (λ a. record a { phase = waiting; lamp = led.set_high a.lamp })

  abbrev serve : Exec App (Unit {0})
  serve a = if a.chip.link_up then wake a else link_dropped a

  -- `main` from one sleep to the next; a dropped link is looked at again by phase 1.
  unfoldable pub resume : Phase → Exec App (Unit {0})
  unfolding bring_up wake
  resume waiting a = if a.chip.link_up then (bring_up >> serve) a else (ok tt, a)
  resume serving a = serve a

  -- the interrupt handlers; the chip is published before they are unmasked
  abbrev quietly : Exec App (Unit {0}) → Exec App (Unit {0})
  quietly m a = ignored (m a)

  unfoldable pub service : Exec App (Unit {0})
  service = quietly (on_chip (Chip.service spi out))

  module _ (board : Board) where
    unfoldable pub tim2 : Exec (App × Option board.Timer) (Unit {0})
    unfolding service
    tim2 (a, timer) =
        let (r, a') = service a in
        (r, (a', elim timer [ none ↦ none | some t ↦ some (board.clear_interrupt t) ]))

    unfoldable pub exti15_10 : Exec (App × Option board.IntPin) (Unit {0})
    unfolding service
    exti15_10 (a, pin) =
        let (r, a') = service a in
        (r, (a', elim pin [ none ↦ none | some p ↦ some (board.clear_interrupt_pending_bit p) ]))

  unfoldable pub dma1_channel2 : Exec App (Unit {0})
  dma1_channel2 = on_chip (Chip.dma_complete spi out)
