-- ===== src/Udp/Loops.antt =====
-- wiznet-rs/src/udp_socket.rs: the two loops of `recv_from`.
use wiznet_rs.Prelude.{
  ℕ, zero, suc, ◌+◌, ◌-◌, ◌≤◌, ◌<◌, min, ◌≡◌, refl, ap, ◌∙◌, List, ◌++◌, arith, some, length, take,
  drop, replicate, length-replicate, length-append, length-take, take-append_le,
}
use wiznet_rs.Exec.{ok}
use wiznet_rs.Ring
use wiznet_rs.Ring.{SpscRing, usize_mod, wrapping_sub, wrapping_add, copy_to, bytes_at}
use wiznet_rs.Ring.Bounds.{IsValid, contents}
use wiznet_rs.Ring.Copies.{copy_to_start}
use wiznet_rs.Ring.Consume.{Consumed, Consumed-zero, Consumed-add, Consumed-length, read-full}
use wiznet_rs.Udp.Frame.{SocketAddr}
use wiznet_rs.Udp.Handle.{copy_loop, discard_loop, take_frame}

copy_loop-done :
    (fuel n : ℕ) (dst : List ℕ) (rx : SpscRing) (c : ℕ)
    → c ≡ n
    → copy_loop fuel n c dst rx ≡ (ok dst, rx)
unfolding copy_loop
copy_loop-done zero n dst rx c e = ground arith
copy_loop-done (suc fuel) n dst rx c e = ground arith

copy_loop-round :
    (fuel n : ℕ) (dst : List ℕ) (rx : SpscRing) (c : ℕ)
    → c < n
    → copy_loop (suc fuel) n c dst rx ≡ (
        let (got, piece, rx') = Ring.read rx (bytes_at dst c (n - c)) in
        copy_loop fuel n (c + got) (copy_to dst c piece) rx')
unfolding copy_loop
copy_loop-round fuel n dst rx c h = ground arith

pub Consumed-count : {a b : ℕ} {r s : SpscRing} → a ≡ b → Consumed a r s → Consumed b r s
Consumed-count e c = rw (← e) c

-- With `n` bytes stored the copy takes them in one round.
copy_loop_lem :
    (n : ℕ) (dst : List ℕ) (rx : SpscRing)
    → IsValid rx
    → n ≤ length dst
    → n ≤ length (contents rx)
    → (rx' : SpscRing) × (copy_loop n n 0 dst rx ≡ (ok (take n (contents rx) ++ drop n dst), rx'))
      × Consumed n rx rx'
unfolding copy_loop
copy_loop_lem zero dst rx v h k = (rx, refl, Consumed-zero rx v)
copy_loop_lem (suc m) dst rx v h k =
    let n = suc m in
    let whole : length (bytes_at dst 0 (n - 0)) ≡ n = omega (arith, length-take (n - 0) dst) in
    let (all, got, used) = read-full rx (bytes_at dst 0 (n - 0)) v (omega (arith, whole)) in
    let step = Ring.read rx (bytes_at dst 0 (n - 0)) in
    (
      step.2,
      copy_loop-round m n dst rx 0 (omega arith)
          ∙ copy_loop-done m n (copy_to dst 0 step.1) step.2 (0 + step.0)
              (omega (arith, all, whole))
          ∙ ap (λ (ys : List ℕ). (ok ys, step.2))
              (ap (copy_to dst 0) (got ∙ ap (λ j. take j (contents rx)) whole)
                ∙ copy_to_start dst (take n (contents rx))
                    (omega (arith, length-take n (contents rx)))
                ∙ ap (λ j. take n (contents rx) ++ drop j dst) {x = length (take n (contents rx))}
                    {y = n} (omega (arith, length-take n (contents rx)))),
      Consumed-count whole used,
    )

discard_loop-round :
    (fuel k : ℕ) (rx : SpscRing)
    → 0 < k
    → discard_loop (suc fuel) k rx ≡ (
        let (got, scratch, rx') = Ring.read rx (replicate (min k 64) 0) in
        discard_loop fuel (k - got) rx')
unfolding discard_loop
discard_loop-round fuel k rx h = ground arith

-- With at least `k` bytes stored, `k` rounds suffice to drop them.
discard_loop_lem :
    (fuel k : ℕ) (rx : SpscRing)
    → IsValid rx
    → k ≤ fuel
    → k ≤ length (contents rx)
    → (rx' : SpscRing) × (discard_loop fuel k rx ≡ (ok tt, rx')) × Consumed k rx rx'
unfolding discard_loop
discard_loop_lem zero zero rx v f h = (rx, refl, Consumed-zero rx v)
discard_loop_lem zero (suc k) rx v f h = absurd (omega arith)
discard_loop_lem (suc fuel) zero rx v f h = (rx, refl, Consumed-zero rx v)
discard_loop_lem (suc fuel) (suc m) rx v f h =
    let k = suc m in
    let chunk : length (replicate {A = ℕ} (min k 64) 0) ≡ min k 64 =
      length-replicate (min k 64) 0 in
    let (all, got, used) = read-full rx (replicate (min k 64) 0) v (omega (arith, chunk)) in
    let step = Ring.read rx (replicate (min k 64) 0) in
    let used' : Consumed (min k 64) rx step.2 = Consumed-count chunk used in
    let (rx', ends, more) =
      discard_loop_lem fuel (k - step.0) step.2 used'.valid (omega (arith, all, chunk))
        (omega (arith, all, chunk, Consumed-length (min k 64) used')) in
    (
      rx',
      discard_loop-round fuel k rx (omega arith) ∙ ends,
      Consumed-count (omega (arith, all, chunk)) (Consumed-add (min k 64) (k - step.0) used' more),
    )

-- `take_frame` on a ring that stores the whole payload: it returns the datagram, cut to `dst`.
pub take_frame_lem :
    (peer : SocketAddr) (payload rest dst : List ℕ) (rx : SpscRing)
    → IsValid rx
    → contents rx ≡ payload ++ rest
    → let n = min (length payload) (length dst) in
      (rx' : SpscRing) × (take_frame (length payload) peer dst rx
        ≡ (ok (some (n, peer), take n payload ++ drop n dst), Ring.release_frame rx'))
      × Consumed (length payload) rx rx'
unfolding take_frame
take_frame_lem peer payload rest dst rx v e =
    let n = min (length payload) (length dst) in
    let total : length (contents rx) ≡ length payload + length rest =
      ap length e ∙ length-append payload rest in
    let (rx₁, copied, used) = copy_loop_lem n dst rx v (omega arith) (omega (arith, total)) in
    let (rx₂, dropped, used') =
      discard_loop_lem (length payload - n) (length payload - n) rx₁ used.valid (omega arith)
        (omega (arith, total, Consumed-length n used)) in
    let got : take n (contents rx) ≡ take n payload =
      ap (take n) e ∙ take-append_le n payload rest (omega arith) in
    (
      rx₂,
      rw (copied, dropped, got),
      Consumed-count (omega arith) (Consumed-add n (length payload - n) used used'),
    )
