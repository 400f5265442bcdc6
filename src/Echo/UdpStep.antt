-- ===== src/Echo/UdpStep.antt =====
-- examples/echo/src/main.rs: what one send and one receive of the UDP echo do.
use wiznet_rs.Prelude.{
  ℕ, ◌+◌, ◌≤◌, ◌<◌, ◌≡◌, refl, sym, subst, ap, ap₂, ◌∙◌, true, false, ◌⊎◌, inl, inr, List, [], ◌∷◌,
  ◌++◌, Option, none, some, arith, ltb, ◌==◌, length, take, append-nil,
}
use wiznet_rs.Exec.{ok}
use wiznet_rs.Ring
use wiznet_rs.Tick.{SocketRings}
use wiznet_rs.Udp.Frame.{SocketAddr}
use wiznet_rs.Udp.Handle.{send_to}
use wiznet_rs.Udp.Queue.{Datagram, Fits, Holds}
use wiznet_rs.Udp.Send.{send_to_lem}
use wiznet_rs.Echo.Udp.{UdpEcho, send_refused, flush_pending}

abbrev pub datagram_of : List ℕ → ℕ × SocketAddr → Datagram
datagram_of buf (n, peer) = record { payload = take n buf; peer = peer }

abbrev pub staged : List ℕ → Option (ℕ × SocketAddr) → List Datagram
staged buf none = []
staged buf (some p) = datagram_of buf p ∷ []

-- the datagram received and not yet accepted by the tx ring
abbrev pub carried : UdpEcho → List Datagram
carried s = staged s.udp_buf s.udp_pending

-- A datagram of one byte at least, that `udp_buf` has room for.
abbrev pub Plain : ℕ → Datagram → Type 0
Plain size d = (0 < length d.payload) × (length d.payload ≤ size) × Fits d

abbrev pub AllPlain : ℕ → List Datagram → Type 0
AllPlain size [] = Unit
AllPlain size (d ∷ ds) = Plain size d × AllPlain size ds

abbrev pub StagedIn : List ℕ → Option (ℕ × SocketAddr) → Type 0
StagedIn buf none = Unit
StagedIn buf (some (n, peer)) = (n ≤ length buf) × Plain (length buf) (datagram_of buf (n, peer))

-- The rx ring holds `ds` and the tx ring `es`; every datagram is plain.
pub record Ready (s : UdpEcho) (ds es : List Datagram) : Type 0 where
  pub rx_holds : Holds s.rings.rx ds
  pub tx_holds : Holds s.rings.tx es
  pub waiting : AllPlain (length s.udp_buf) ds
  pub pending_in : StagedIn s.udp_buf s.udp_pending

-- the state with another tx ring
abbrev pub with_tx : UdpEcho → Ring.SpscRing → UdpEcho
with_tx s tx = record s { rings = record s.rings { tx = tx } }

pub send_refused_eq :
    (s : UdpEcho) (n : ℕ) (peer : SocketAddr)
    → n ≤ length s.udp_buf
    → let (sent, tx) = send_to (take n s.udp_buf) peer s.rings.tx in
      send_refused n peer s ≡ (ok (sent == 0), with_tx s tx)
unfolding send_refused
send_refused_eq s n peer fits =
    let inside : ltb (length s.udp_buf) n ≡ false = ground (arith, fits) in rw inside refl

-- A plain datagram at the start of `udp_buf` is either accepted, or has no room and changes
-- nothing.
pub send_refused_lem :
    (s : UdpEcho) (es : List Datagram) (n : ℕ) (peer : SocketAddr)
    → Holds s.rings.tx es
    → n ≤ length s.udp_buf
    → Plain (length s.udp_buf) (datagram_of s.udp_buf (n, peer))
    → let d = datagram_of s.udp_buf (n, peer) in
      ((send_refused n peer s ≡ (ok true, s)) × (Ring.free s.rings.tx < 8 + length d.payload))
      ⊎ ((tx : Ring.SpscRing) × (send_refused n peer s ≡ (ok false, with_tx s tx))
          × Holds tx (es ++ d ∷ []))
send_refused_lem s es n peer h fits (pos, small, fit) =
    let d : Datagram = datagram_of s.udp_buf (n, peer) in
    let eq = send_refused_eq s n peer fits in
    elim (send_to_lem s.rings.tx es d h fit) [
      | inl (full, zero_sent, same) ↦ inl (
        eq ∙ ap₂ (λ (k : ℕ) (tx : Ring.SpscRing). (ok (k == 0), with_tx s tx)) zero_sent same,
        full,
      )
      | inr (room, all, holds) ↦
          let r = send_to d.payload d.peer s.rings.tx in
          let some_sent : (r.0 == 0) ≡ false = ground (arith, all, pos) in
          inr (r.1, eq ∙ ap (λ b. (ok b, with_tx s r.1)) some_sent, holds)
    ]

-- From `s`, where the rings hold `ds` and `es`, to `t`: the datagrams `moved` went to the tx ring,
-- and no other went anywhere.
pub record Bounced (s t : UdpEcho) (ds es ds' moved : List Datagram) : Type 0 where
  pub ready : Ready t ds' (es ++ moved)
  pub kept : carried s ++ ds ≡ moved ++ (carried t ++ ds')
  pub size_same : length t.udp_buf ≡ length s.udp_buf

-- Nothing is left to echo, or the datagram carried over has no room.
abbrev pub Halted : UdpEcho → List Datagram → Type 0
Halted t ds' =
    ((carried t ≡ []) × (ds' ≡ []))
    ⊎ ((d : Datagram) × (carried t ≡ d ∷ []) × (Ring.free t.rings.tx < 8 + length d.payload))

pub Bounced-refl : (s : UdpEcho) (ds es : List Datagram) → Ready s ds es → Bounced s s ds es ds []
Bounced-refl s ds es h = record {
  ready = subst (Ready s ds) (sym (append-nil es)) h;
  kept = refl;
  size_same = refl;
}

abbrev staging : SocketRings → List ℕ → Option (ℕ × SocketAddr) → UdpEcho
staging rings buf p = record { rings = rings; udp_buf = buf; udp_pending = p }

flush_on :
    (rings : SocketRings) (buf : List ℕ) (p : Option (ℕ × SocketAddr)) (ds es : List Datagram)
    → Ready (staging rings buf p) ds es
    → let (r, t) = flush_pending p (staging rings buf p) in
      (moved : List Datagram) × Bounced (staging rings buf p) t ds es ds moved
      × (((r ≡ ok true) × (t.udp_pending ≡ none)) ⊎ ((r ≡ ok false) × Halted t ds))
unfolding flush_pending
flush_on rings buf none ds es h = ([], Bounced-refl _ ds es h, inl (refl, refl))
flush_on rings buf (some (n, peer)) ds es h =
    let s : UdpEcho = staging rings buf (some (n, peer)) in
    let d : Datagram = datagram_of buf (n, peer) in
    elim (send_refused_lem s es n peer h.tx_holds h.pending_in.0 h.pending_in.1) [
      | inl (e, full) ↦ rw e ([], Bounced-refl s ds es h, inr (refl, inr (d, refl, full)))
      | inr (tx, e, holds) ↦ rw e (
        d ∷ [],
        record {
          ready = record {
            rx_holds = h.rx_holds;
            tx_holds = holds;
            waiting = h.waiting;
            pending_in = tt;
          };
          kept = refl;
          size_same = refl;
        },
        inl (refl, refl),
      )
    ]

-- The carried-over datagram is accepted first, or stays.
pub flush_pending_lem :
    (s : UdpEcho) (ds es : List Datagram)
    → Ready s ds es
    → let (r, t) = flush_pending s.udp_pending s in
      (moved : List Datagram) × Bounced s t ds es ds moved
      × (((r ≡ ok true) × (t.udp_pending ≡ none)) ⊎ ((r ≡ ok false) × Halted t ds))
flush_pending_lem s ds es h = flush_on s.rings s.udp_buf s.udp_pending ds es h
