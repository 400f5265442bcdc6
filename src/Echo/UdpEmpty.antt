-- ===== src/Echo/UdpEmpty.antt =====
-- examples/echo/src/main.rs: an empty datagram in the UDP echo.
use wiznet_rs.Prelude.{
  ℕ, suc, ◌≤◌, ◌≡◌, refl, ap, ◌∙◌, true, inl, inr, List, [], ◌∷◌, ◌++◌, some, false, arith, ◌==◌,
}
use wiznet_rs.Exec.{ok}
use wiznet_rs.Ring
use wiznet_rs.Udp.Frame.{SocketAddr}
use wiznet_rs.Udp.Handle.{send_to}
use wiznet_rs.Udp.Queue.{Datagram, Fits, Holds}
use wiznet_rs.Udp.Send.{send_to_lem}
use wiznet_rs.Ring.{SpscRing}
use wiznet_rs.Echo.UdpStep.{send_refused_eq, with_tx}
use wiznet_rs.Echo.Udp.{send_refused, UdpEcho, flush_pending, udp_round, udp_echo_loop}

abbrev pub empty_to : SocketAddr → Datagram
empty_to peer = record { payload = []; peer = peer }

refused :
    (s : UdpEcho) (es : List Datagram) (peer : SocketAddr)
    → Fits (empty_to peer)
    → Holds s.rings.tx es
    → 8 ≤ Ring.free s.rings.tx
    → (tx : SpscRing) × (send_refused 0 peer s ≡ (ok true, with_tx s tx))
      × Holds tx (es ++ empty_to peer ∷ [])
refused s es peer fit h room = elim (send_to_lem s.rings.tx es (empty_to peer) h fit) [
  | inl (full, _, _) ↦ absurd (omega (arith, full, room))
  | inr (_, none_sent, holds) ↦
      let r = send_to [] peer s.rings.tx in
      (
        r.1,
        send_refused_eq s 0 peer (omega arith)
            ∙ ap (λ (k : ℕ). (ok (k == 0), with_tx s r.1)) none_sent,
        holds,
      )
]

-- An empty datagram that is carried over, with room for its frame in the tx ring, is sent, and yet
-- stays carried over: the loop ends in its first round, with nothing received, and sends it once
-- more each time that it runs.
pub empty_datagram_repeats :
    (fuel : ℕ) (s : UdpEcho) (es : List Datagram) (peer : SocketAddr)
    → Fits (empty_to peer)
    → Holds s.rings.tx es
    → 8 ≤ Ring.free s.rings.tx
    → s.udp_pending ≡ some (0, peer)
    → let (r, t) = udp_echo_loop (suc fuel) s in
      (r ≡ ok tt)
      × (t.udp_pending ≡ some (0, peer))
      × (t.rings.rx ≡ s.rings.rx)
      × Holds t.rings.tx (es ++ empty_to peer ∷ [])
unfolding udp_echo_loop udp_round flush_pending
empty_datagram_repeats fuel s es peer fit h room e =
    let (tx, r, holds) = refused s es peer fit h room in
    let flush : flush_pending s.udp_pending s ≡ (ok false, with_tx s tx) =
      ap (λ p. flush_pending p s) e ∙ rw r refl in
    rw flush (refl, e, refl, holds)
