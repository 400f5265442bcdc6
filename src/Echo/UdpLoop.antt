-- ===== src/Echo/UdpLoop.antt =====
-- examples/echo/src/main.rs: what a run of the UDP echo does to the datagrams.
use wiznet_rs.Prelude.{
  ℕ, zero, suc, ◌<◌, ◌≡◌, refl, sym, subst, ap, ◌∙◌, true, false, ◌⊎◌, inl, inr, List, ◌++◌, arith,
  length, append_assoc,
}
use wiznet_rs.Exec.{ok}
use wiznet_rs.Udp.Queue.{Datagram}
use wiznet_rs.Echo.Udp.{UdpEcho, flush_pending, udp_round, udp_echo_loop}
use wiznet_rs.Echo.UdpStep.{Ready, Bounced, Halted, flush_pending_lem}
use wiznet_rs.Echo.UdpBounce.{drain_one_lem}

Bounced-append :
    {s t u : UdpEcho} {ds es ds' ds'' : List Datagram} (xs ys : List Datagram)
    → Bounced s t ds es ds' xs
    → Bounced t u ds' (es ++ xs) ds'' ys
    → Bounced s u ds es ds'' (xs ++ ys)
Bounced-append {u} {es} {ds''} xs ys a b = record {
  ready = subst (Ready u ds'') (append_assoc es xs ys) b.ready;
  kept = a.kept ∙ ap (λ zs. xs ++ zs) b.kept ∙ sym (append_assoc xs ys _);
  size_same = b.size_same ∙ a.size_same;
}

udp_round_lem :
    (s : UdpEcho) (ds es : List Datagram)
    → Ready s ds es
    → let (r, t) = udp_round s in
      (ds' : List Datagram) × (moved : List Datagram) × Bounced s t ds es ds' moved
      × (((r ≡ ok true) × (length ds' < length ds)) ⊎ ((r ≡ ok false) × Halted t ds'))
unfolding udp_round
udp_round_lem s ds es h =
    let (xs, a, first) = flush_pending_lem s ds es h in
    elim first [
      | inr (r, halted) ↦ rw r (ds, xs, a, inr (refl, halted))
      | inl (r, none_left) ↦
          let t = (flush_pending s.udp_pending s).1 in
          let (ds', ys, b, last) = drain_one_lem ds (es ++ xs) t none_left a.ready in
          rw r (ds', xs ++ ys, Bounced-append xs ys a b, last)
    ]

-- Where the rx ring holds the datagrams `ds` and the tx ring `es`, and each datagram, also one
-- carried over, has one byte at least and fits `udp_buf`, the echo loop ends, with a round for
-- each datagram and one more. It moves whole datagrams, first the one carried over and then those
-- of the rx ring, to the tx ring, in order, losing and adding none; it stops only with nothing
-- left to echo, or carrying over a datagram that the tx ring has no room for.
pub udp_echo_loop_lem :
    (fuel : ℕ) (s : UdpEcho) (ds es : List Datagram)
    → Ready s ds es
    → length ds < fuel
    → let (r, t) = udp_echo_loop fuel s in
      (r ≡ ok tt)
      × ((ds' : List Datagram) × (moved : List Datagram) × Bounced s t ds es ds' moved
          × Halted t ds')
unfolding udp_echo_loop
udp_echo_loop_lem zero s ds es h enough = absurd (omega arith)
udp_echo_loop_lem (suc fuel) s ds es h enough =
    let (ds', xs, a, last) = udp_round_lem s ds es h in
    elim last [
      | inr (r, halted) ↦ rw r (refl, (ds', xs, a, halted))
      | inl (r, less) ↦
          let t = (udp_round s).1 in
          let (r', (ds'', ys, b, halted)) =
            udp_echo_loop_lem fuel t ds' (es ++ xs) a.ready (omega (arith, less, enough)) in
          rw r (r', (ds'', xs ++ ys, Bounced-append xs ys a b, halted))
    ]
