-- ===== src/Echo/TcpStep.antt =====
-- examples/echo/src/main.rs: what a refill and a push of the TCP echo do to the stream.
use wiznet_rs.Prelude.{
  ℕ, ◌+◌, ◌-◌, ◌≤◌, ◌<◌, min, ◌≡◌, refl, sym, ap, ap₂, ◌∙◌, true, false, not, ◌&&◌, ◌⊎◌, inl, inr,
  List, [], ◌∷◌, ◌++◌, arith, leb, ◌==◌, Bool-cases, length, take, drop, length-take, length-drop,
  take-append, take-append-drop, append_assoc, append-nil, drop-take, drop-add, length-append,
}
use wiznet_rs.Exec.{ok}
use wiznet_rs.Ring
use wiznet_rs.Ring.{SpscRing, bytes_at}
use wiznet_rs.Ring.Bounds.{IsValid, contents}
use wiznet_rs.Ring.Read.{read_lem}
use wiznet_rs.Ring.Write.{write_lem}
use wiznet_rs.Ring.Refine.{length-contents}
use wiznet_rs.Chip.Open.{tcp_read, tcp_write}
use wiznet_rs.Echo.Tcp.{TcpEcho, refill, push}

abbrev pub rx_of : TcpEcho → SpscRing
rx_of s = s.sock.rings.rx

abbrev pub tx_of : TcpEcho → SpscRing
tx_of s = s.sock.rings.tx

-- the bytes read and not yet accepted by the tx ring
abbrev pub pending : TcpEcho → List ℕ
pending s = bytes_at s.buf s.off (s.len - s.off)

-- Valid rings, and a carry-over within a buffer that is not empty.
pub record Staged (s : TcpEcho) : Type 0 where
  pub rx_valid : IsValid s.sock.rings.rx
  pub tx_valid : IsValid s.sock.rings.tx
  pub room : 0 < length s.buf
  pub off_in : s.off ≤ s.len
  pub len_in : s.len ≤ length s.buf

-- From `s` to `t` the bytes `moved` went into the tx ring, and no other byte went anywhere.
pub record Echoed (s t : TcpEcho) (moved : List ℕ) : Type 0 where
  pub staged : Staged t
  pub out : contents t.sock.rings.tx ≡ contents s.sock.rings.tx ++ moved
  pub kept :
      pending s ++ contents s.sock.rings.rx ≡ moved ++ (pending t ++ contents t.sock.rings.rx)
  pub cap_same : t.sock.rings.tx.cap ≡ s.sock.rings.tx.cap

length-zero : (xs : List ℕ) → length xs ≡ 0 → xs ≡ []
length-zero [] e = refl
length-zero (x ∷ xs) e = absurd (omega (arith, e))

pending-none : (s : TcpEcho) → s.off ≡ s.len → pending s ≡ []
pending-none s e =
    ap (λ k. take k (drop s.off s.buf)) {x = s.len - s.off} {y = 0} (omega (arith, e))

-- the state after a read of `n` bytes into `buf`
abbrev refilled : TcpEcho → TcpEcho
refilled s =
    let (n, buf, rx) = Ring.read s.sock.rings.rx s.buf in
    record {
      sock = record s.sock { rings = record s.sock.rings { rx = rx } };
      buf = buf;
      len = n;
      off = 0;
    }

Echoed-refl : (s : TcpEcho) → Staged s → Echoed s s []
Echoed-refl s h = record { staged = h; out = sym (append-nil _); kept = refl; cap_same = refl }

pub Echoed-append :
    {s t u : TcpEcho} (xs ys : List ℕ) → Echoed s t xs → Echoed t u ys → Echoed s u (xs ++ ys)
Echoed-append {s} xs ys a b = record {
  staged = b.staged;
  out = b.out ∙ ap (λ zs. zs ++ ys) a.out ∙ append_assoc (contents (tx_of s)) xs ys;
  kept = a.kept ∙ ap (λ zs. xs ++ zs) b.kept ∙ sym (append_assoc xs ys _);
  cap_same = b.cap_same ∙ a.cap_same;
}

module _ (s : TcpEcho) (h : Staged s) where
  abbrev taken : ℕ
  taken = (Ring.read (rx_of s) s.buf).0

  taken-count : taken ≡ min (length s.buf) (length (contents (rx_of s)))
  unfolding Ring.len
  taken-count = omega (arith, (read_lem (rx_of s) h.rx_valid s.buf).0, length-contents (rx_of s))

  taken-length : length (take taken (contents (rx_of s))) ≡ taken
  taken-length = omega (arith, taken-count, length-take taken (contents (rx_of s)))

  refilled-buf : (refilled s).buf ≡ take taken (contents (rx_of s)) ++ drop taken s.buf
  refilled-buf = (read_lem (rx_of s) h.rx_valid s.buf).1

  refilled-size : length (refilled s).buf ≡ length s.buf
  refilled-size = omega (
    arith,
    ap length refilled-buf,
    length-append (take taken (contents (rx_of s))) (drop taken s.buf),
    taken-length,
    taken-count,
    length-drop taken s.buf,
  )

  refilled-Staged : Staged (refilled s)
  refilled-Staged = record {
    rx_valid = (read_lem (rx_of s) h.rx_valid s.buf).3;
    tx_valid = h.tx_valid;
    room = omega (arith, refilled-size, h.room);
    off_in = omega arith;
    len_in = omega (arith, refilled-size, taken-count);
  }

  -- The read moves the oldest bytes of the rx ring to the carry-over.
  refilled-pending : pending (refilled s) ++ contents (rx_of (refilled s)) ≡ contents (rx_of s)
  refilled-pending =
      ap₂ ◌++◌
        (ap (λ k. take k (refilled s).buf) {x = taken - 0} {y = taken} (omega arith)
          ∙ ap (take taken) refilled-buf
          ∙ take-append taken (take taken (contents (rx_of s))) (drop taken s.buf) taken-length)
        (read_lem (rx_of s) h.rx_valid s.buf).2
      ∙ take-append-drop taken (contents (rx_of s))

  -- A refill leaves bytes to echo, or finds none and says so.
  pub refill_lem :
      let (r, t) = refill s in
      Echoed s t []
      × (((r ≡ ok true) × (t.off < t.len))
          ⊎ ((r ≡ ok false) × (pending t ≡ []) × (contents (rx_of t) ≡ [])))
  unfolding refill tcp_read
  refill_lem = elim (Bool-cases (s.off == s.len)) [
    | inr left ↦ rw left (Echoed-refl s h, inl (refl, ground (arith, h.off_in)))
    | inl used ↦ rw used (elim (Bool-cases (taken == 0)) [
      | inl none ↦ rw none (
        carried (ground arith),
        inr (refl, pending-none (refilled s) (ground arith), nothing (ground arith)),
      )
      | inr some ↦ rw some (carried (ground arith), inl (refl, ground arith))
    ])
  ]
    where
      carried : s.off ≡ s.len → Echoed s (refilled s) []
      carried e = record {
        staged = refilled-Staged;
        out = sym (append-nil _);
        kept = ap (λ ys. ys ++ contents (rx_of s)) (pending-none s e) ∙ sym refilled-pending;
        cap_same = refl;
      }

      nothing : taken ≡ 0 → contents (rx_of (refilled s)) ≡ []
      nothing e = length-zero _ (
          omega (
            arith,
            taken-count,
            e,
            h.room,
            ap length (read_lem (rx_of s) h.rx_valid s.buf).2,
            length-drop (Ring.read (rx_of s) s.buf).0 (contents (rx_of s)),
          ))

  abbrev pub sent : ℕ × SpscRing
  sent = Ring.write (tx_of s) (pending s)

  abbrev pushed : TcpEcho
  pushed = record s {
    sock = record s.sock { rings = record s.sock.rings { tx = sent.1 } };
    off = s.off + sent.0;
  }

  pub pending-length : length (pending s) ≡ s.len - s.off
  pending-length =
      omega
        (arith, length-take (s.len - s.off) (drop s.off s.buf), length-drop s.off s.buf, h.len_in)

  pub sent-count : sent.0 ≡ min (s.len - s.off) (Ring.free (tx_of s))
  sent-count = omega (arith, (write_lem (tx_of s) h.tx_valid (pending s)).0, pending-length)

  pushed-pending : pending pushed ≡ drop sent.0 (pending s)
  pushed-pending =
      ap (λ k. take k (drop (s.off + sent.0) s.buf)) {x = s.len - (s.off + sent.0)}
        {y = s.len - s.off - sent.0} (omega arith)
      ∙ ap (take (s.len - s.off - sent.0)) (drop-add s.off sent.0 s.buf)
      ∙ sym (drop-take sent.0 (s.len - s.off) (drop s.off s.buf))

  Echoed-pushed : Echoed s pushed (take sent.0 (pending s))
  Echoed-pushed =
      let w = write_lem (tx_of s) h.tx_valid (pending s) in
      record {
        staged = record {
          rx_valid = h.rx_valid;
          tx_valid = w.2;
          room = h.room;
          off_in = omega (arith, sent-count, h.off_in);
          len_in = h.len_in;
        };
        out = w.1;
        kept =
            ap (λ ys. ys ++ contents (rx_of s))
              (sym (take-append-drop sent.0 (pending s))
                ∙ ap (λ ys. take sent.0 (pending s) ++ ys) (sym pushed-pending))
            ∙ append_assoc (take sent.0 (pending s)) (pending pushed) (contents (rx_of s));
        cap_same = w.4;
      }

  -- A push moves the next bytes of the carry-over to the tx ring, as many as fit.
  pub push_lem :
      let (r, t) = push s in (r ≡ ok (not (sent.0 == 0))) × Echoed s t (take sent.0 (pending s))
  unfolding push tcp_write
  push_lem =
      let inside : (leb s.off s.len && leb s.len (length s.buf)) ≡ true =
        ground (arith, h.off_in, h.len_in) in
      rw inside (refl, Echoed-pushed)
