-- ===== src/Udp/Handle.antt =====
-- wiznet-rs/src/udp_socket.rs: `UdpSocket::recv_from` and `UdpSocket::send_to`, on the ring that
-- each of them uses.
use wiznet_rs.Prelude.{
  ℕ, zero, suc, ◌+◌, ◌-◌, ◌%◌, ◌^◌, min, List, Option, none, some, ltb, ◌==◌, if◌then◌else◌,
  replicate, length,
}
use wiznet_rs.Exec.{ok, out_of_fuel, Exec, ◌>>=◌, ◌>>◌}
use wiznet_rs.Ring
use wiznet_rs.Ring.{SpscRing, copy_to, bytes_at}
use wiznet_rs.Udp.Frame.{SocketAddr, frame_header_len, frame_header, parse_frame_header}

-- `while copied < n { copied += rx.read(&mut dst[copied..n]); }`, which gives `dst`. With nothing
-- to read the loop would not end, and runs out of fuel here.
unfoldable pub copy_loop : (fuel n copied : ℕ) → List ℕ → Exec SpscRing (List ℕ)
copy_loop zero n copied dst rx = if ltb copied n then (out_of_fuel, rx) else (ok dst, rx)
copy_loop (suc fuel) n copied dst rx =
    let (got, piece, rx') = Ring.read rx (bytes_at dst copied (n - copied)) in
    let rest = copy_loop fuel n (copied + got) (copy_to dst copied piece) rx' in
    if ltb copied n then rest else (ok dst, rx)

-- `while discard > 0 { … discard -= rx.read(&mut scratch[..take]); }`
unfoldable pub discard_loop : (fuel discard : ℕ) → Exec SpscRing (Unit {0})
discard_loop zero discard rx = if ltb 0 discard then (out_of_fuel, rx) else (ok tt, rx)
discard_loop (suc fuel) discard rx =
    let (got, scratch, rx') = Ring.read rx (replicate (min discard 64) 0) in
    let rest = discard_loop fuel (discard - got) rx' in if ltb 0 discard then rest else (ok tt, rx)

-- The frame whose header was just read; the bytes that `dst` has no room for are dropped.
unfoldable pub take_frame :
    ℕ → SocketAddr → List ℕ → Exec SpscRing (Option (ℕ × SocketAddr) × List ℕ)
unfolding copy_loop discard_loop
take_frame payload_len peer dst = do
  let n = min payload_len (length dst)
  dst' ← copy_loop n n 0 dst
  discard_loop (payload_len - n) (payload_len - n)
  λ rx. (ok (some (n, peer), dst'), Ring.release_frame rx)

-- The reply, with what `dst` holds afterwards.
unfoldable pub recv_from : List ℕ → Exec SpscRing (Option (ℕ × SocketAddr) × List ℕ)
unfolding take_frame
recv_from dst rx =
    if Ring.frames rx == 0
    then (ok (none, dst), rx)
    else let (got, head, rx') = Ring.read rx (replicate frame_header_len 0) in
      let (payload_len, peer) = parse_frame_header head in take_frame payload_len peer dst rx'

-- The number of bytes accepted, and the ring.
unfoldable pub send_to : List ℕ → SocketAddr → SpscRing → ℕ × SpscRing
send_to src dst tx =
    if ltb (Ring.free tx) (frame_header_len + length src)
    then (0, tx)
    else let headed = (Ring.write tx (frame_header (length src % 2 ^ 16) dst)).1 in
      (length src, Ring.commit_frame (Ring.write headed src).1)
