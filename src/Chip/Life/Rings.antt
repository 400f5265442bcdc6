-- ===== src/Chip/Life/Rings.antt =====
-- wiznet-rs/src/udp_socket.rs: `recv_from` and `send_to` on any valid ring, whatever it holds.
use wiznet_rs.Prelude.{
  ℕ, zero, suc, ◌+◌, ◌-◌, ◌%◌, ◌^◌, min, Bool, true, false, List, none, ltb, ◌==◌, if◌then◌else◌,
  replicate, length,
}
use wiznet_rs.Exec.{continue, Result, ok, err, panic, out_of_fuel, Exec}
use wiznet_rs.Ring
use wiznet_rs.Ring.{SpscRing, wrapping_add, copy_to, bytes_at}
use wiznet_rs.Ring.Bounds.{IsValid}
use wiznet_rs.Ring.Read.{read_lem}
use wiznet_rs.Ring.Write.{write_lem}
use wiznet_rs.Ring.Frames.{commit_frame-IsValid, release_frame-IsValid}
use wiznet_rs.Udp.Frame.{SocketAddr, frame_header_len, frame_header, parse_frame_header}
use wiznet_rs.Udp.Handle.{copy_loop, discard_loop, take_frame, recv_from, send_to}

-- `m` leaves a valid ring valid, whatever it gives.
record Keeps {A : Type 0} (m : Exec SpscRing A) : Type 0 where
  at : (r : SpscRing) → IsValid r → IsValid (m r).1

Keeps-bind :
    {A B : Type 0} (m : Exec SpscRing A) (f : A → Exec SpscRing B)
    → Keeps m
    → ((a : A) → Keeps (f a))
    → (r : SpscRing) → IsValid r
    → IsValid (continue (m r).0 f (m r).1).1
Keeps-bind {A} {B} m f k kf r v = on (m r).0 (m r).1 (k.at r v)
  where
    on : (q : Result A) (s : SpscRing) → IsValid s → IsValid (continue q f s).1
    on (ok a) s v' = (kf a).at s v'
    on (err e) s v' = v'
    on panic s v' = v'
    on out_of_fuel s v' = v'

if-IsValid :
    {A : Type 0} (b : Bool) (m k : A × SpscRing)
    → IsValid m.1
    → IsValid k.1
    → IsValid (if b then m else k).1
if-IsValid true m k vm vk = vm
if-IsValid false m k vm vk = vk

copy_loop-IsValid :
    (fuel n copied : ℕ) (dst : List ℕ) (r : SpscRing)
    → IsValid r
    → IsValid (copy_loop fuel n copied dst r).1
unfolding copy_loop
copy_loop-IsValid zero n copied dst r v = if-IsValid (ltb copied n) (out_of_fuel, r) (ok dst, r) v v
copy_loop-IsValid (suc fuel) n copied dst r v =
    let (got, piece, r') = Ring.read r (bytes_at dst copied (n - copied)) in
    if-IsValid (ltb copied n) (copy_loop fuel n (copied + got) (copy_to dst copied piece) r')
      (ok dst, r)
      (copy_loop-IsValid fuel n (copied + got) (copy_to dst copied piece) r'
        (read_lem r v (bytes_at dst copied (n - copied))).3)
      v

discard_loop-IsValid : (fuel k : ℕ) (r : SpscRing) → IsValid r → IsValid (discard_loop fuel k r).1
unfolding discard_loop
discard_loop-IsValid zero k r v = if-IsValid (ltb 0 k) (out_of_fuel, r) (ok tt, r) v v
discard_loop-IsValid (suc fuel) k r v =
    let (got, scratch, r') = Ring.read r (replicate (min k 64) 0) in
    if-IsValid (ltb 0 k) (discard_loop fuel (k - got) r') (ok tt, r)
      (discard_loop-IsValid fuel (k - got) r' (read_lem r v (replicate (min k 64) 0)).3) v

take_frame-IsValid :
    (payload_len : ℕ) (peer : SocketAddr) (dst : List ℕ) (r : SpscRing)
    → IsValid r
    → IsValid (take_frame payload_len peer dst r).1
unfolding take_frame
take_frame-IsValid payload_len peer dst r v =
    let n = min payload_len (length dst) in
    Keeps-bind (copy_loop n n 0 dst) _ (record { at = copy_loop-IsValid n n 0 dst })
      (λ dst'. record {
        at =
            Keeps-bind (discard_loop (payload_len - n) (payload_len - n)) _
              (record { at = discard_loop-IsValid (payload_len - n) (payload_len - n) })
              (λ u. record { at = release_frame-IsValid });
      })
      r v

pub recv_from-IsValid : (dst : List ℕ) (r : SpscRing) → IsValid r → IsValid (recv_from dst r).1
unfolding recv_from
recv_from-IsValid dst r v =
    let (got, head, r') = Ring.read r (replicate frame_header_len 0) in
    let (payload_len, peer) = parse_frame_header head in
    if-IsValid (Ring.frames r == 0) (ok (none, dst), r) (take_frame payload_len peer dst r') v
      (take_frame-IsValid payload_len peer dst r' (read_lem r v (replicate frame_header_len 0)).3)

pub send_to-IsValid :
    (src : List ℕ) (peer : SocketAddr) (r : SpscRing) → IsValid r → IsValid (send_to src peer r).1
unfolding send_to
send_to-IsValid src peer r v =
    let header = frame_header (length src % 2 ^ 16) peer in
    let headed = (Ring.write r header).1 in
    if-IsValid (ltb (Ring.free r) (frame_header_len + length src)) (0, r)
      (length src, Ring.commit_frame (Ring.write headed src).1) v
      (commit_frame-IsValid _ (write_lem headed (write_lem r v header).2 src).2)
