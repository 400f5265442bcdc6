-- ===== src/Backend/Sound.antt =====
-- wiznet-rs/src/socket.rs: `SocketBackend::run`, a slot's tick and the release of the slot.
use wiznet_rs.Prelude.{ℕ, ◌≡◌, refl, sym, ◌∙◌, Bool, true, false, ◌⊎◌, inl, inr}
use wiznet_rs.Exec.{Result, Quiet}
use wiznet_rs.Spi.{SpiDmaDevice, KeepsBuffers}
use wiznet_rs.Tick.{SocketStatus, closed, error, timeout, BulkAction}
use wiznet_rs.Tick.Status.{Ended, Ongoing}
use wiznet_rs.Tcp.State
use wiznet_rs.Udp.State as UdpState
use wiznet_rs.Tick.Ready.{Ready}
use wiznet_rs.Tcp.Sound.{tcp_run_lem}
use wiznet_rs.Udp.Sound.{udp_run_lem}
use wiznet_rs.Backend.{
  BackendState, free, tcp, udp, SocketBackend, BackendTick, is_terminal, settle_release, run_state,
  run,
}

-- The slot is used as before: by the same protocol, or by none.
abbrev pub SameUse : BackendState → BackendState → Type 0
SameUse free free = Unit
SameUse (tcp t) (tcp t') = Unit
SameUse (udp u) (udp u') = Unit
SameUse _ _ = ⊥

-- A slot whose socket has come to its end, or that no protocol uses; and one whose socket has not.
abbrev pub Over : BackendState → Type 0
Over free = Unit
Over (tcp t) = Ended t.status
Over (udp u) = Ended u.status

abbrev pub Underway : BackendState → Type 0
Underway free = ⊥
Underway (tcp t) = Ongoing t.status
Underway (udp u) = Ongoing u.status

-- What became of the slot `b` whose protocol left the state `mid`. It was given back, with its
-- release requested and its socket ended; or no release was requested or the socket has not ended,
-- and it holds what the protocol left, with the request, if any, still to be met.
abbrev pub Settled : SocketBackend → BackendState → SocketBackend → Type 0
Settled b mid b' =
    ((b.release_requested ≡ true) × Over mid × (b'.state ≡ free) × (b'.release_requested ≡ false))
    ⊎ (((b.release_requested ≡ false) ⊎ Underway mid)
        × (b'.state ≡ mid)
        × (b'.release_requested ≡ b.release_requested))

tcp_status_cases :
    (a : SocketStatus)
    → ((State.is_closed_status a ≡ true) × Ended a)
      ⊎ ((State.is_closed_status a ≡ false) × Ongoing a)
unfolding State.is_closed_status
tcp_status_cases closed = inl (refl, tt)
tcp_status_cases error = inl (refl, tt)
tcp_status_cases timeout = inl (refl, tt)
tcp_status_cases _ = inr (refl, tt)

udp_status_cases :
    (a : SocketStatus)
    → ((UdpState.is_closed_status a ≡ true) × Ended a)
      ⊎ ((UdpState.is_closed_status a ≡ false) × Ongoing a)
unfolding UdpState.is_closed_status
udp_status_cases closed = inl (refl, tt)
udp_status_cases error = inl (refl, tt)
udp_status_cases timeout = inl (refl, tt)
udp_status_cases _ = inr (refl, tt)

is_terminal-cases :
    (st : BackendState)
    → ((is_terminal st ≡ true) × Over st) ⊎ ((is_terminal st ≡ false) × Underway st)
unfolding is_terminal State.is_closed UdpState.is_closed
is_terminal-cases free = inl (refl, tt)
is_terminal-cases (tcp t) = tcp_status_cases t.status
is_terminal-cases (udp u) = udp_status_cases u.status

settle_release-Settled :
    (b m : SocketBackend) (requested : Bool)
    → b.release_requested ≡ requested
    → m.release_requested ≡ b.release_requested
    → ((is_terminal m.state ≡ true) × Over m.state)
      ⊎ ((is_terminal m.state ≡ false) × Underway m.state)
    → Settled b m.state (settle_release m)
unfolding settle_release
settle_release-Settled b m true r k (inl (t, over)) = rw (k ∙ r, t) (inl (r, over, refl, refl))
settle_release-Settled b m true r k (inr (t, on)) = rw (k ∙ r, t) (inr (inr on, refl, sym r))
settle_release-Settled b m false r k t = rw (k ∙ r) (inr (inl r, refl, sym r))

module _ (spi : SpiDmaDevice) (keeps : KeepsBuffers spi) (size : ℕ) where
  -- the tick of the protocol, before the slot is looked at
  Inner : BackendTick spi → Result BulkAction × BackendTick spi → Type 0
  Inner s (r, s') =
      Quiet r
      × Ready spi size s'
      × SameUse s.proto.state s'.proto.state
      × (s'.proto.release_requested ≡ s.proto.release_requested)
      × (s'.proto.block ≡ s.proto.block)

  run_state-Inner :
      (st : BackendState) (s : BackendTick spi)
      → s.proto.state ≡ st
      → Ready spi size s
      → Inner s (run_state spi st s)
  unfolding run_state Inner
  run_state-Inner free s e h = (tt, h, rw e tt, refl, refl)
  run_state-Inner (tcp t) s e h =
      let (quiet, k, edge) =
        tcp_run_lem spi keeps size s.proto.block
          (record { trans = s.trans; rings = s.rings; proto = t })
          (record { bus = h.bus; rx_valid = h.rx_valid; tx_valid = h.tx_valid; proto_ok = tt }) in
      (
        quiet,
        record { bus = k.bus; rx_valid = k.rx_valid; tx_valid = k.tx_valid; proto_ok = tt },
        rw e tt,
        refl,
        refl,
      )
  run_state-Inner (udp u) s e h =
      let (quiet, k, edge) =
        udp_run_lem spi keeps size s.proto.block
          (record { trans = s.trans; rings = s.rings; proto = u })
          (record { bus = h.bus; rx_valid = h.rx_valid; tx_valid = h.tx_valid; proto_ok = tt }) in
      (
        quiet,
        record { bus = k.bus; rx_valid = k.rx_valid; tx_valid = k.tx_valid; proto_ok = tt },
        rw e tt,
        refl,
        refl,
      )

  -- One tick of a slot on a ready bus and valid rings comes back without a panic and with no error
  -- but `WouldBlock`, and leaves the bus ready and the rings valid. The protocol's tick leaves the
  -- slot to the same protocol. The slot is then given back just if its release was requested and
  -- its socket is closed, failed or timed out; otherwise it holds what the protocol left, with the
  -- request, if any, kept.
  pub slot_run_lem :
      (s : BackendTick spi)
      → Ready spi size s
      → let mid = (run_state spi s.proto.state s).1.proto in
        let (r, s') = run spi s in
        Quiet r
        × Ready spi size s'
        × SameUse s.proto.state mid.state
        × Settled s.proto mid.state s'.proto
  unfolding run Inner
  slot_run_lem s h =
      let (quiet, k, same, kept, block) = run_state-Inner s.proto.state s refl h in
      let mid = (run_state spi s.proto.state s).1.proto in
      (
        quiet,
        record { bus = k.bus; rx_valid = k.rx_valid; tx_valid = k.tx_valid; proto_ok = tt },
        same,
        settle_release-Settled s.proto mid s.proto.release_requested refl kept
            (is_terminal-cases mid.state),
      )
