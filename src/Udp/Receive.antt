-- ===== src/Udp/Receive.antt =====
-- wiznet-rs/src/udp_socket.rs: `recv_from` on the queue of datagrams.
use wiznet_rs.Prelude.{
  ℕ, ◌+◌, min, ◌≡◌, sym, ap, ◌∙◌, List, [], ◌∷◌, ◌++◌, arith, ◌==◌, true, false, Option, none, some,
  length, take, drop, replicate, length-append, append-nil, take-append, drop-append, append_assoc,
}
use wiznet_rs.Exec.{ok}
use wiznet_rs.Ring
use wiznet_rs.Ring.{SpscRing, usize_mod, wrapping_sub, wrapping_add, copy_to, bytes_at}
use wiznet_rs.Ring.Bounds.{contents}
use wiznet_rs.Ring.Refine.{length-contents}
use wiznet_rs.Ring.Frames.{reframed}
use wiznet_rs.Ring.Consume.{Consumed, Consumed-add, read-full}
use wiznet_rs.Udp.Frame.{SocketAddr, frame_header, parse_frame_header}
use wiznet_rs.Udp.Handle.{recv_from}
use wiznet_rs.Udp.Queue.{
  Datagram, encode, encode_all, Holds, length-frame_header, length-encode, frames-le,
  parse_frame_header-frame_header,
}
use wiznet_rs.Udp.Loops.{take_frame_lem}

-- The specification: the oldest datagram, cut to `dst`, or nothing.
unfoldable pub spec_recv :
    List Datagram → List ℕ → (Option (ℕ × SocketAddr) × List ℕ) × List Datagram
spec_recv [] dst = ((none, dst), [])
spec_recv (d ∷ ds) dst =
    let n = min (length d.payload) (length dst) in
    ((some (n, d.peer), take n d.payload ++ drop n dst), ds)

-- One frame less to count.
released :
    (r s : SpscRing) (d : Datagram) (ds : List Datagram)
    → Holds r (d ∷ ds)
    → Consumed (8 + length d.payload) r s
    → Holds (Ring.release_frame s) ds
unfolding Ring.release_frame
released r s d ds h c = record {
  valid = reframed s s.frames_in (wrapping_add s.frames_out 1) c.valid;
  bytes =
      c.left
      ∙ ap (drop (8 + length d.payload)) h.bytes
      ∙ drop-append (8 + length d.payload) (encode d) (encode_all ds) (length-encode d);
  fit = h.fit.1;
  in_range = omega (arith, c.frames_in_same, h.in_range);
  out_range = omega arith;
  counted = omega (
    arith,
    c.frames_in_same,
    c.frames_out_same,
    h.counted,
    h.in_range,
    h.out_range,
    frames-le (d ∷ ds),
    ap length h.bytes,
    length-contents r,
    h.valid.len_in,
    h.valid.small,
  );
}

recv_from-cons :
    (r : SpscRing) (d : Datagram) (ds : List Datagram) (dst : List ℕ)
    → Holds r (d ∷ ds)
    → (r' : SpscRing) × (recv_from dst r ≡ (ok (spec_recv (d ∷ ds) dst).0, r')) × Holds r' ds
unfolding recv_from spec_recv Ring.frames
recv_from-cons r d ds dst h =
    let header = frame_header (length d.payload) d.peer in
    let split : contents r ≡ header ++ (d.payload ++ encode_all ds) =
      h.bytes ∙ append_assoc header d.payload (encode_all ds) in
    let eight : length header ≡ 8 = length-frame_header (length d.payload) d.peer in
    let total : length (contents r) ≡ 8 + length (d.payload ++ encode_all ds) =
      ap length split
      ∙ length-append header (d.payload ++ encode_all ds)
      ∙ ap (λ k. k + length (d.payload ++ encode_all ds)) eight in
    let (all, got, used) = read-full r (replicate 8 0) h.valid (omega (arith, total)) in
    let step = Ring.read r (replicate 8 0) in
    let head : step.1 ≡ header ++ [] =
      got
      ∙ ap (take 8) split
      ∙ take-append 8 header (d.payload ++ encode_all ds) eight
      ∙ sym (append-nil header) in
    let left : contents step.2 ≡ d.payload ++ encode_all ds =
      used.left ∙ ap (drop 8) split ∙ drop-append 8 header (d.payload ++ encode_all ds) eight in
    let (s, takes, used') =
      take_frame_lem d.peer d.payload (encode_all ds) dst step.2 used.valid left in
    let parsed : parse_frame_header step.1 ≡ (length d.payload, d.peer) =
      ap parse_frame_header head
      ∙ parse_frame_header-frame_header (length d.payload) d.peer [] h.fit.0.len_fits
          h.fit.0.ip_fits h.fit.0.port_fits in
    let some_frame : (wrapping_sub r.frames_in r.frames_out == 0) ≡ false =
      ground (arith, h.counted) in
    (
      Ring.release_frame s,
      rw (some_frame, parsed) takes,
      released r s d ds h (Consumed-add 8 (length d.payload) used used'),
    )

-- On a ring that holds the datagrams `ds`, `recv_from` ends, never fails, returns the oldest
-- datagram cut to `dst` with its peer, or nothing if there is none, and leaves the ring holding
-- the others: the next call starts at the next frame.
pub recv_from_lem :
    (ds : List Datagram) (r : SpscRing) (dst : List ℕ)
    → Holds r ds
    → (r' : SpscRing) × (recv_from dst r ≡ (ok (spec_recv ds dst).0, r'))
      × Holds r' (spec_recv ds dst).1
unfolding recv_from spec_recv Ring.frames
recv_from_lem [] r dst h =
    let no_frame : (wrapping_sub r.frames_in r.frames_out == 0) ≡ true =
      ground (arith, h.counted) in
    (r, rw no_frame, h)
recv_from_lem (d ∷ ds) r dst h = recv_from-cons r d ds dst h
