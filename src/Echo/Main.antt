-- ===== src/Echo/Main.antt =====
-- examples/echo/src/main.rs: what the main thread does on a wake with the TCP listener. The
-- LED is lit by a low level.
use wiznet_rs.Prelude.{suc}
use wiznet_rs.Exec.{Result, ok, err, Exec, modify, ◌>>◌}
use wiznet_rs.Ring
use wiznet_rs.Tick.{SocketStatus}
use wiznet_rs.Chip.Open.{tcp_status, tcp_reconnect}
use wiznet_rs.Echo.Tcp.{TcpEcho, echo_loop}

-- the LED's pin: its type and operations are parameters
pub record Led : Type 1 where
  pub Pin : Type 0
  pub set_low : Pin → Pin
  pub set_high : Pin → Pin

-- `let _ = …`
abbrev pub ignored : {S : Type 0} → Result (Unit {0}) × S → Result (Unit {0}) × S
ignored (err e, s) = (ok tt, s)
ignored p = p

module _ (led : Led) where
  -- the TCP side of a wake: the slot, the carry-over and the LED
  pub record TcpSide : Type 0 where
    pub echo : TcpEcho
    pub lamp : led.Pin

  abbrev lit : Exec TcpSide (Unit {0})
  lit = modify (λ s. record s { lamp = led.set_low s.lamp })

  abbrev unlit : Exec TcpSide (Unit {0})
  unlit = modify (λ s. record s { lamp = led.set_high s.lamp })

  abbrev run_echo : Exec TcpSide (Unit {0})
  run_echo s =
      let (r, echo) = echo_loop (suc (Ring.free s.echo.sock.rings.tx)) s.echo in
      (r, record s { echo = echo })

  -- The carry-over dropped, and the listener armed again.
  abbrev rearm : Exec TcpSide (Unit {0})
  rearm s =
      let (r, sock) = ignored (tcp_reconnect s.echo.sock) in
      (r, record s { echo = record s.echo { sock = sock; len = 0; off = 0 } })

  -- the `match` on `sock.status()`
  unfoldable pub on_status : Result SocketStatus → Exec TcpSide (Unit {0})
  unfolding echo_loop
  on_status (ok SocketStatus.established) = lit >> run_echo
  on_status (ok SocketStatus.closed) = unlit >> rearm
  on_status (ok SocketStatus.timeout) = unlit >> rearm
  on_status (ok SocketStatus.error) = unlit >> rearm
  on_status _ = unlit

  unfoldable pub tcp_wake : Exec TcpSide (Unit {0})
  unfolding on_status
  tcp_wake s = on_status (tcp_status s.echo.sock).0 s
