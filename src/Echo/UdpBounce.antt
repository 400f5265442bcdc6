-- ===== src/Echo/UdpBounce.antt =====
-- examples/echo/src/main.rs: what one receive of the UDP echo does.
use wiznet_rs.Prelude.{
  ℕ, ◌≤◌, ◌<◌, min, ◌≡◌, refl, sym, subst, ap, ◌∙◌, true, false, ◌⊎◌, inl, inr, List, [], ◌∷◌, ◌++◌,
  Option, none, some, arith, length, take, drop, take-all, take-append, length-append, length-drop,
  append-nil,
}
use wiznet_rs.Exec.{ok}
use wiznet_rs.Udp.Frame.{SocketAddr}
use wiznet_rs.Udp.Handle.{recv_from}
use wiznet_rs.Udp.Queue.{Datagram, Holds}
use wiznet_rs.Udp.Receive.{recv_from_lem, spec_recv}
use wiznet_rs.Echo.Udp.{UdpEcho, bounce, drain_one}
use wiznet_rs.Echo.UdpStep.{
  carried, datagram_of, staged, Plain, AllPlain, StagedIn, Ready, send_refused_lem, Bounced, Halted,
}

-- What `recv_from` makes of a datagram that fits: the whole of it, at the start of `udp_buf`.
spec_recv-whole :
    (d : Datagram) (ds : List Datagram) (buf : List ℕ)
    → length d.payload ≤ length buf
    → spec_recv (d ∷ ds) buf
      ≡ ((some (length d.payload, d.peer), d.payload ++ drop (length d.payload) buf), ds)
unfolding spec_recv
spec_recv-whole d ds buf small =
    ap (λ (n : ℕ). ((some (n, d.peer), take n d.payload ++ drop n buf), ds))
      {x = min (length d.payload) (length buf)} {y = length d.payload} (omega arith)
    ∙ ap
        (λ (ys : List ℕ).
          ((some (length d.payload, d.peer), ys ++ drop (length d.payload) buf), ds))
        (take-all (length d.payload) d.payload (omega arith))

-- The datagram just received is accepted, or carried over.
bounce_lem :
    (s : UdpEcho) (d : Datagram) (ds es : List Datagram)
    → Holds s.rings.rx ds
    → Holds s.rings.tx es
    → AllPlain (length s.udp_buf) ds
    → Plain (length s.udp_buf) d
    → take (length d.payload) s.udp_buf ≡ d.payload
    → s.udp_pending ≡ none
    → let (r, t) = bounce (ok (some (length d.payload, d.peer))) s in
      (moved : List Datagram) × Ready t ds (es ++ moved)
      × (d ∷ ds ≡ moved ++ (carried t ++ ds))
      × (length t.udp_buf ≡ length s.udp_buf)
      × ((r ≡ ok true) ⊎ ((r ≡ ok false) × Halted t ds))
unfolding bounce
bounce_lem s d ds es rx_holds tx_holds waiting plain front e =
    let n = length d.payload in
    let d' : Datagram = datagram_of s.udp_buf (n, d.peer) in
    let same : d' ≡ d = ap (λ (ys : List ℕ). record { payload = ys; peer = d.peer }) front in
    let plain' : Plain (length s.udp_buf) d' = subst (Plain (length s.udp_buf)) (sym same) plain in
    elim (send_refused_lem s es n d.peer tx_holds plain.1 plain') [
      | inl (r, full) ↦ rw r (
        [],
        record {
          rx_holds = rx_holds;
          tx_holds = subst (Holds s.rings.tx) (sym (append-nil es)) tx_holds;
          waiting = waiting;
          pending_in = (plain.1, plain');
        },
        ap (λ x. x ∷ ds) (sym same),
        refl,
        inr (refl, inr (d', refl, full)),
      )
      | inr (tx, r, holds) ↦ rw r (
        d' ∷ [],
        record {
          rx_holds = rx_holds;
          tx_holds = holds;
          waiting = waiting;
          pending_in = subst (StagedIn s.udp_buf) (sym e) tt;
        },
        ap (λ x. x ∷ ds) (sym same) ∙ ap (λ p. d' ∷ (staged s.udp_buf p ++ ds)) (sym e),
        refl,
        inl refl,
      )
    ]

-- One receive and send, with nothing carried over.
pub drain_one_lem :
    (ds es : List Datagram) (s : UdpEcho)
    → s.udp_pending ≡ none
    → Ready s ds es
    → let (r, t) = drain_one s in
      (ds' : List Datagram) × (moved : List Datagram) × Bounced s t ds es ds' moved
      × (((r ≡ ok true) × (length ds' < length ds)) ⊎ ((r ≡ ok false) × Halted t ds'))
unfolding drain_one bounce spec_recv
drain_one_lem [] es s e h =
    let (rx, got, holds) = recv_from_lem [] s.rings.rx s.udp_buf h.rx_holds in
    rw got (
      [],
      [],
      record {
        ready = record {
          rx_holds = holds;
          tx_holds = subst (Holds s.rings.tx) (sym (append-nil es)) h.tx_holds;
          waiting = tt;
          pending_in = h.pending_in;
        };
        kept = refl;
        size_same = refl;
      },
      inr (refl, inl (ap (staged s.udp_buf) e, refl)),
    )
drain_one_lem (d ∷ ds) es s e h =
    let (rx, got, holds) = recv_from_lem (d ∷ ds) s.rings.rx s.udp_buf h.rx_holds in
    let (plain, waiting) = h.waiting in
    let n = length d.payload in
    let buf : List ℕ = d.payload ++ drop n s.udp_buf in
    let size : length buf ≡ length s.udp_buf =
      omega (arith, length-append d.payload (drop n s.udp_buf), length-drop n s.udp_buf, plain.1) in
    let t : UdpEcho = record s { rings = record s.rings { rx = rx }; udp_buf = buf } in
    let (moved, ready, kept, same, last) =
      bounce_lem t d ds es holds h.tx_holds (subst (λ k. AllPlain k ds) (sym size) waiting)
        (subst (λ k. Plain k d) (sym size) plain) (take-append n d.payload (drop n s.udp_buf) refl)
        e in
    let got' : recv_from s.udp_buf s.rings.rx ≡ (ok (some (n, d.peer), buf), rx) =
      got
      ∙ ap (λ (w : (Option (ℕ × SocketAddr) × List ℕ) × List Datagram). (ok w.0, rx))
          (spec_recv-whole d ds s.udp_buf plain.1) in
    rw got' (
      ds,
      moved,
      record {
        ready = ready;
        kept = ap (λ p. staged s.udp_buf p ++ (d ∷ ds)) e ∙ kept;
        size_same = same ∙ size;
      },
      elim last [ inl r ↦ inl (r, omega arith) | inr (r, halted) ↦ inr (r, halted) ],
    )
