-- ===== src/Echo/Udp.antt =====
-- examples/echo/src/main.rs: the echo of the datagrams, run to its end between two interrupts.
use wiznet_rs.Prelude.{
  ℕ, zero, suc, Bool, true, false, List, Option, none, some, ltb, ◌==◌, if◌then◌else◌, length, take,
}
use wiznet_rs.Exec.{Result, ok, err, panic, out_of_fuel, Exec, pure, ◌>>=◌, ◌>>◌}
use wiznet_rs.Ring
use wiznet_rs.Tick.{SocketRings}
use wiznet_rs.Udp.Frame.{SocketAddr}
use wiznet_rs.Udp.Handle.{recv_from, send_to}

-- the rings of the UDP socket, and the staging of the loop
pub record UdpEcho : Type 0 where
  pub rings : SocketRings
  pub udp_buf : List ℕ
  pub udp_pending : Option (ℕ × SocketAddr)

-- `udp_sock.send_to(&udp_buf[..n], peer).unwrap_or(0) == 0`
unfoldable pub send_refused : ℕ → SocketAddr → Exec UdpEcho Bool
unfolding send_to
send_refused n peer s =
    if ltb (length s.udp_buf) n
    then (panic, s)
    else let (sent, tx) = send_to (take n s.udp_buf) peer s.rings.tx in
      (ok (sent == 0), record s { rings = record s.rings { tx = tx } })

abbrev pub set_pending : Option (ℕ × SocketAddr) → Exec UdpEcho (Unit {0})
set_pending p s = (ok tt, record s { udp_pending = p })

-- The carried-over datagram; whether the loop goes on.
unfoldable pub flush_pending : Option (ℕ × SocketAddr) → Exec UdpEcho Bool
unfolding send_refused
flush_pending none = pure true
flush_pending (some (n, peer)) = do
  refused ← send_refused n peer
  if refused then pure false else (set_pending none >> pure true)

-- The `match` on the outcome of `recv_from`.
unfoldable pub bounce : Result (Option (ℕ × SocketAddr)) → Exec UdpEcho Bool
unfolding send_refused
bounce (ok none) = pure false
bounce (ok (some (n, peer))) = do
  refused ← send_refused n peer
  if refused then (set_pending (some (n, peer)) >> pure false) else pure true
bounce (err e) = pure false
bounce panic = λ s. (panic, s)
bounce out_of_fuel = λ s. (out_of_fuel, s)

-- `udp_sock.recv_from(&mut udp_buf)`
abbrev pub received :
    UdpEcho
    → Result (Option (ℕ × SocketAddr) × List ℕ) × Ring.SpscRing
    → Result (Option (ℕ × SocketAddr)) × UdpEcho
received s (ok (got, buf), rx) =
    (ok got, record s { rings = record s.rings { rx = rx }; udp_buf = buf })
received s (err e, rx) = (err e, record s { rings = record s.rings { rx = rx } })
received s (panic, rx) = (panic, record s { rings = record s.rings { rx = rx } })
received s (out_of_fuel, rx) = (out_of_fuel, record s { rings = record s.rings { rx = rx } })

unfoldable pub drain_one : Exec UdpEcho Bool
unfolding recv_from bounce
drain_one s = let (got, t) = received s (recv_from s.udp_buf s.rings.rx) in bounce got t

-- One round of the `loop`; whether another follows.
unfoldable pub udp_round : Exec UdpEcho Bool
unfolding flush_pending drain_one
udp_round s = (flush_pending s.udp_pending >>= λ more. if more then drain_one else pure false) s

unfoldable pub udp_echo_loop : (fuel : ℕ) → Exec UdpEcho (Unit {0})
unfolding udp_round
udp_echo_loop zero s = (out_of_fuel, s)
udp_echo_loop (suc fuel) s =
    let rest = udp_echo_loop fuel in (udp_round >>= λ again. if again then rest else pure tt) s
