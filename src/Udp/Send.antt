-- ===== src/Udp/Send.antt =====
-- wiznet-rs/src/udp_socket.rs: `send_to` on the queue of datagrams.
use wiznet_rs.Prelude.{
  ◌+◌, ◌%◌, ◌^◌, ◌≤◌, ◌<◌, ◌≡◌, refl, sym, ap, ◌∙◌, ◌⊎◌, inl, inr, List, [], ◌∷◌, ◌++◌, arith, ltb,
  Bool-cases, length, length-append,
}
use wiznet_rs.Ring
use wiznet_rs.Ring.{SpscRing, usize_mod, wrapping_sub, wrapping_add}
use wiznet_rs.Ring.Bounds.{contents}
use wiznet_rs.Ring.Produce.{Appended, write-Appended, Appended-append}
use wiznet_rs.Ring.Refine.{length-contents}
use wiznet_rs.Ring.Frames.{reframed}
use wiznet_rs.Udp.Frame.{frame_header}
use wiznet_rs.Udp.Handle.{send_to}
use wiznet_rs.Udp.Queue.{
  Datagram, Fits, encode, encode_all, Holds, length-frame_header, encode_all-append, AllFit-append,
  length-snoc, frames-le,
}

-- A ring after the frame of `d`, its frame count included.
module _ (r : SpscRing) (ds : List Datagram) (d : Datagram) (h : Holds r ds) (f : Fits d) where
  pub committed :
      (s : SpscRing) → Appended r s (encode d) → Holds (Ring.commit_frame s) (ds ++ d ∷ [])
  unfolding Ring.commit_frame
  committed s a = record {
    valid = reframed s (wrapping_add s.frames_in 1) s.frames_out a.valid;
    bytes = a.added ∙ ap (λ ys. ys ++ encode d) h.bytes ∙ sym (encode_all-append ds d);
    fit = AllFit-append ds d h.fit f;
    in_range = omega arith;
    out_range = omega (arith, a.frames_out_same, h.out_range);
    counted = omega (
      arith,
      a.frames_in_same,
      a.frames_out_same,
      h.counted,
      h.in_range,
      h.out_range,
      length-snoc ds d,
      few,
    );
  }
    where
      bytes : length (contents s) ≡ length (encode_all (ds ++ d ∷ []))
      bytes = ap length (a.added ∙ ap (λ ys. ys ++ encode d) h.bytes ∙ sym (encode_all-append ds d))

      few : length ds + 1 < usize_mod
      few = omega (
        arith,
        frames-le (ds ++ d ∷ []),
        length-snoc ds d,
        bytes,
        length-contents s,
        a.valid.len_in,
        a.valid.small,
      )

  pub staged :
      8 + length d.payload ≤ Ring.free r
      → Appended r
          (Ring.write (Ring.write r (frame_header (length d.payload) d.peer)).1 d.payload).1
          (encode d)
  unfolding Ring.free Ring.len
  staged room =
      let header = frame_header (length d.payload) d.peer in
      let first : Appended r (Ring.write r header).1 header = write-Appended r header h.valid (
        omega (
          arith,
          room,
          length-contents r,
          length-frame_header (length d.payload) d.peer,
          h.valid.len_in,
        )) in
      Appended-append header d.payload first (
        write-Appended (Ring.write r header).1 d.payload first.valid (
          omega (
            arith,
            room,
            length-contents r,
            length-frame_header (length d.payload) d.peer,
            h.valid.len_in,
            first.cap_same,
            ap length first.added,
            length-append (contents r) header,
          )))

  -- On a ring that holds the datagrams `ds`, and for a datagram whose length and peer fit the
  -- header's fields, `send_to` either has no room for the whole frame, says 0 and leaves the ring
  -- as it was, or takes the whole payload and puts the datagram behind those that wait.
  pub send_to_lem :
      let (n, r') = send_to d.payload d.peer r in
      ((Ring.free r < 8 + length d.payload) × (n ≡ 0) × (r' ≡ r))
      ⊎ ((8 + length d.payload ≤ Ring.free r) × (n ≡ length d.payload) × Holds r' (ds ++ d ∷ []))
  unfolding send_to
  send_to_lem = elim (Bool-cases (ltb (Ring.free r) (8 + length d.payload))) [
    | inl small ↦ rw small (inl (ground arith, refl, refl))
    | inr room ↦
        let fits : 8 + length d.payload ≤ Ring.free r = ground arith in
        let exact : length d.payload % 2 ^ 16 ≡ length d.payload = omega (arith, f.len_fits) in
        rw (room, exact) (inr (fits, refl, committed _ (staged fits)))
  ]
