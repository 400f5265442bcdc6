-- ===== src/Echo/Tcp.antt =====
-- examples/echo/src/main.rs: the echo of the TCP stream, run to its end between two interrupts.
use wiznet_rs.Prelude.{
  ℕ, zero, suc, ◌+◌, ◌-◌, Bool, true, false, not, ◌&&◌, List, leb, ◌==◌, if◌then◌else◌, length,
}
use wiznet_rs.Exec.{Result, ok, err, panic, out_of_fuel, Exec, pure, modify, ◌>>=◌, ◌>>◌}
use wiznet_rs.Ring.{bytes_at}
use wiznet_rs.Backend.{Socket}
use wiznet_rs.Chip.Open.{tcp_read, tcp_write}

-- the listener's slot, and the carry-over of the loop
pub record TcpEcho : Type 0 where
  pub sock : Socket
  pub buf : List ℕ
  pub len : ℕ
  pub off : ℕ

abbrev recover : {A : Type 0} → A → Result A → Result A
recover d (ok a) = ok a
recover d (err e) = ok d
recover d panic = panic
recover d out_of_fuel = out_of_fuel

-- `.unwrap_or(d)`
abbrev pub unwrap_or : {S A : Type 0} → A → Exec S A → Exec S A
unwrap_or d m s = let (r, s') = m s in (recover d r, s')

abbrev on_sock : {A : Type 0} → Exec Socket A → Exec TcpEcho A
on_sock m s = let (r, sock) = m s.sock in (r, record s { sock = sock })

-- The refill of an empty `buf`; whether there are bytes to echo.
unfoldable pub refill : Exec TcpEcho Bool
unfolding tcp_read
refill s =
    if s.off == s.len
    then (unwrap_or (0, s.buf) (on_sock (tcp_read s.buf)) >>= λ (n, buf).
          modify (λ u. record u { buf = buf; len = n; off = 0 }) >> pure (not (n == 0)))
        s
    else (ok true, s)

-- The write of what is left of `buf`; whether the tx ring took any of it.
unfoldable pub push : Exec TcpEcho Bool
unfolding tcp_write
push s =
    if leb s.off s.len && leb s.len (length s.buf)
    then (unwrap_or 0 (on_sock (tcp_write (bytes_at s.buf s.off (s.len - s.off)))) >>= λ n.
          modify (λ u. record u { off = u.off + n }) >> pure (not (n == 0)))
        s
    else (panic, s)

-- One round of the `loop`; whether another follows.
unfoldable pub round : Exec TcpEcho Bool
unfolding refill push
round = do more ← refill; if more then push else pure false

unfoldable pub echo_loop : (fuel : ℕ) → Exec TcpEcho (Unit {0})
unfolding round
echo_loop zero s = (out_of_fuel, s)
echo_loop (suc fuel) s =
    let rest = echo_loop fuel in (round >>= λ again. if again then rest else pure tt) s
