-- ===== src/Echo/MainLaws.antt =====
-- examples/echo/src/main.rs: what a wake does with the listener, for each status that it reports.
use wiznet_rs.Prelude.{ℕ, suc, ◌≡◌, refl, ap, ◌∙◌, Option, none, some, false, List, [], arith}
use wiznet_rs.Exec.{Result, ok}
use wiznet_rs.Ring
use wiznet_rs.Ring.Bounds.{contents}
use wiznet_rs.Tick
use wiznet_rs.Tick.{SocketStatus}
use wiznet_rs.Tcp.State
use wiznet_rs.Tcp.State.{TcpSocketState}
use wiznet_rs.Backend.{Socket, tcp, as_tcp}
use wiznet_rs.Chip.Open.{tcp_status, tcp_reconnect}
use wiznet_rs.Echo.Tcp.{TcpEcho}
use wiznet_rs.Echo.TcpStep.{pending, Staged, Echoed}
use wiznet_rs.Echo.TcpLoop.{Stopped, echo_loop_lem}
use wiznet_rs.Echo.Main.{Led, TcpSide, on_status, tcp_wake}

-- Nothing of the old connection is left, and the listener is to be opened again.
pub record Restarted (s : TcpEcho) : Type 0 where
  pub no_carry : pending s ≡ []
  pub no_input : contents s.sock.rings.rx ≡ []
  pub no_output : contents s.sock.rings.tx ≡ []
  pub rearmed : (tcp_status s.sock).0 ≡ ok SocketStatus.init

module _ (led : Led) where
  -- what becomes of the slot and the carry-over on a status
  abbrev pub Woken : SocketStatus → TcpSide led → TcpSide led → Type 0
  Woken SocketStatus.established s t =
      ((moved : List ℕ) × Echoed s.echo t.echo moved)
      × Stopped t.echo
      × (t.lamp ≡ led.set_low s.lamp)
  Woken SocketStatus.closed s t = Restarted t.echo × (t.lamp ≡ led.set_high s.lamp)
  Woken SocketStatus.timeout s t = Restarted t.echo × (t.lamp ≡ led.set_high s.lamp)
  Woken SocketStatus.error s t = Restarted t.echo × (t.lamp ≡ led.set_high s.lamp)
  Woken _ s t = (t.echo ≡ s.echo) × (t.lamp ≡ led.set_high s.lamp)

  module _ (s : TcpSide led) (t : TcpSocketState) (unlocked : s.echo.sock.backend.busy ≡ false)
      (kind : as_tcp s.echo.sock.backend.cell.state ≡ some t) where
    status-lem : (tcp_status s.echo.sock).0 ≡ ok (State.reported_status t)
    unfolding tcp_status
    status-lem = rw (unlocked, kind) refl

    -- what `reconnect` leaves
    again : Socket
    again = record {
      backend = record s.echo.sock.backend {
        cell = record s.echo.sock.backend.cell { state = tcp (State.rearm t) };
      };
      rings = Tick.clear s.echo.sock.rings;
    }

    reconnected : tcp_reconnect s.echo.sock ≡ (ok tt, again)
    unfolding tcp_reconnect again
    reconnected = rw unlocked refl ∙ ap (λ (o : Option TcpSocketState). on_found o o) kind
      where
        on_found : Option TcpSocketState → Option TcpSocketState → Result (Unit {0}) × Socket
        on_found o o' = elim o [
          | none ↦ (ok tt, s.echo.sock)
          | some _ ↦ (
            ok tt,
            record {
              backend = record s.echo.sock.backend {
                cell = elim o' [
                  | some u ↦ record s.echo.sock.backend.cell { state = tcp (State.rearm u) }
                  | none ↦ s.echo.sock.backend.cell
                ];
              };
              rings = Tick.clear s.echo.sock.rings;
            },
          )
        ]

    cleared : Restarted (record s.echo { sock = again; len = 0; off = 0 })
    unfolding again Tick.clear Ring.clear tcp_status as_tcp State.reported_status State.rearm
    cleared = record {
      no_carry = refl;
      no_input = refl;
      no_output = refl;
      rearmed = rw unlocked refl;
    }

    woken :
        (r : SocketStatus)
        → Staged s.echo
        → let (q, u) = on_status led (ok r) s in (q ≡ ok tt) × Woken r s u
    unfolding on_status
    woken SocketStatus.established h =
        let (q, moved, stop) =
          echo_loop_lem (suc (Ring.free s.echo.sock.rings.tx)) s.echo h (omega arith) in
        (q, (moved, stop, refl))
    woken SocketStatus.closed h = rw reconnected (refl, (cleared, refl))
    woken SocketStatus.timeout h = rw reconnected (refl, (cleared, refl))
    woken SocketStatus.error h = rw reconnected (refl, (cleared, refl))
    woken SocketStatus.init h = (refl, (refl, refl))
    woken SocketStatus.opening h = (refl, (refl, refl))
    woken SocketStatus.connecting h = (refl, (refl, refl))
    woken SocketStatus.listening h = (refl, (refl, refl))
    woken SocketStatus.closing_due_to_error h = (refl, (refl, refl))
    woken SocketStatus.closing_due_to_timeout h = (refl, (refl, refl))
    woken SocketStatus.closing h = (refl, (refl, refl))

    -- A wake with the listener's slot unlocked and holding a TCP socket, valid rings and a
    -- carry-over within its buffer, returns. While the socket is established it echoes until
    -- nothing is left or the tx ring is full, losing and adding no byte, with the LED lit. When
    -- the connection has ended or failed, neither the carry-over nor a ring has a byte of it left,
    -- and the listener is to be opened again, with the LED off. In every other status it changes
    -- nothing but the LED, which is off.
    pub tcp_wake_lem :
        Staged s.echo
        → let (q, u) = tcp_wake led s in (q ≡ ok tt) × Woken (State.reported_status t) s u
    unfolding tcp_wake
    tcp_wake_lem h = rw status-lem (woken (State.reported_status t) h)
