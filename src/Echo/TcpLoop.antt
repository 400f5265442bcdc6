-- ===== src/Echo/TcpLoop.antt =====
-- examples/echo/src/main.rs: what a run of the TCP echo does to the stream.
use wiznet_rs.Prelude.{
  ℕ, zero, suc, ◌+◌, ◌<◌, ◌≡◌, refl, ap, true, false, ◌⊎◌, inl, inr, List, [], ◌++◌, arith, ◌==◌,
  Bool-cases, length, take, length-take, length-append,
}
use wiznet_rs.Exec.{ok}
use wiznet_rs.Ring
use wiznet_rs.Ring.{SpscRing, bytes_at}
use wiznet_rs.Ring.Bounds.{IsValid, contents, free-add-len}
use wiznet_rs.Ring.Refine.{length-contents}
use wiznet_rs.Echo.Tcp.{TcpEcho, refill, push, round, echo_loop}
use wiznet_rs.Echo.TcpStep.{
  rx_of, tx_of, pending, Staged, Echoed, Echoed-append, refill_lem, push_lem, sent, sent-count,
  pending-length,
}

free-le : (r : SpscRing) → IsValid r → Ring.free r + length (contents r) ≡ r.cap
unfolding Ring.len
free-le r v = omega (arith, free-add-len r v, length-contents r)

-- Nothing is left to echo, or the tx ring is full.
abbrev pub Stopped : TcpEcho → Type 0
Stopped t = ((pending t ≡ []) × (contents (rx_of t) ≡ [])) ⊎ (Ring.free (tx_of t) ≡ 0)

-- What moved takes that much room.
Echoed-free :
    (s t : TcpEcho) (moved : List ℕ)
    → Staged s
    → Echoed s t moved
    → Ring.free (tx_of t) + length moved ≡ Ring.free (tx_of s)
Echoed-free s t moved h e = omega (
  arith,
  free-le (tx_of s) h.tx_valid,
  free-le (tx_of t) e.staged.tx_valid,
  ap length e.out,
  length-append (contents (tx_of s)) moved,
  e.cap_same,
)

-- A push that moves bytes leaves less room; one that moves none finds the ring full.
push-room :
    (s : TcpEcho) (h : Staged s)
    → s.off < s.len
    → let (r, t) = push s in
      (moved : List ℕ) × Echoed s t moved
      × (((r ≡ ok true) × (Ring.free (tx_of t) < Ring.free (tx_of s)))
          ⊎ ((r ≡ ok false) × (Ring.free (tx_of t) ≡ 0)))
push-room s h more =
    let n = sent s h in
    let (r, e) = push_lem s h in
    let used = Echoed-free s (push s).1 (take n.0 (pending s)) h e in
    let size = length-take n.0 (pending s) in
    (
      take n.0 (pending s),
      e,
      elim (Bool-cases (n.0 == 0)) [
        | inl none ↦
            inr (rw (r, none) refl, omega (arith, used, size, sent-count s h, the_zero n.0 none))
        | inr some ↦ inl (
          rw (r, some) refl,
          omega (arith, used, size, sent-count s h, pending-length s h, the_pos n.0 some),
        )
      ],
    )
  where
    the_zero : (n : ℕ) → (n == 0) ≡ true → n ≡ 0
    the_zero n e = ground (arith, e)

    the_pos : (n : ℕ) → (n == 0) ≡ false → 0 < n
    the_pos n e = ground (arith, e)

round_lem :
    (s : TcpEcho) (h : Staged s)
    → let (r, t) = round s in
      (moved : List ℕ) × Echoed s t moved
      × (((r ≡ ok true) × (Ring.free (tx_of t) < Ring.free (tx_of s)))
          ⊎ ((r ≡ ok false) × Stopped t))
unfolding round
round_lem s h =
    let (e, cases) = refill_lem s h in
    elim cases [
      | inr (r, none, dry) ↦ rw r ([], e, inr (refl, inl (none, dry)))
      | inl (r, more) ↦
          let (moved, e', last) = push-room (refill s).1 e.staged more in
          rw r (
            moved,
            Echoed-append [] moved e e',
            elim last [
              | inl (r', less) ↦ inl (r', omega (arith, less, Echoed-free s (refill s).1 [] h e))
              | inr (r', full) ↦ inr (r', inr full)
            ],
          )
    ]

-- The echo loop on valid rings, with a buffer that is not empty and a carry-over within it, ends,
-- with a round for each free byte of the tx ring and one more. It moves bytes from the carry-over
-- and the rx ring to the tx ring, in order, losing and adding none, keeps the rings valid, and
-- stops only with nothing left to echo or with the tx ring full.
pub echo_loop_lem :
    (fuel : ℕ) (s : TcpEcho)
    → Staged s
    → Ring.free s.sock.rings.tx < fuel
    → let (r, t) = echo_loop fuel s in
      (r ≡ ok tt) × ((moved : List ℕ) × Echoed s t moved) × Stopped t
unfolding echo_loop
echo_loop_lem zero s h enough = absurd (omega arith)
echo_loop_lem (suc fuel) s h enough =
    let (moved, e, cases) = round_lem s h in
    elim cases [
      | inr (r, stop) ↦ rw r (refl, (moved, e), stop)
      | inl (r, less) ↦
          let (r', (more, e'), stop) =
            echo_loop_lem fuel (round s).1 e.staged (omega (arith, less, enough)) in
          rw r (r', (moved ++ more, Echoed-append moved more e e'), stop)
    ]
