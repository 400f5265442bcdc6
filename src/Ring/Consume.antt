-- ===== src/Ring/Consume.antt =====
-- wiznet-rs/src/spsc_ring.rs: reads of bytes that are known to be stored, one after another.
use wiznet_rs.Prelude.{
  ℕ, ◌+◌, ◌-◌, ◌≤◌, ◌≡◌, refl, sym, ap, ◌∙◌, List, ◌++◌, arith, length, take, drop, drop-add,
  drop-all, append-nil, length-drop,
}
use wiznet_rs.Ring.{SpscRing, read, len}
use wiznet_rs.Ring.Bounds.{IsValid, contents}
use wiznet_rs.Ring.Read.{read_lem}
use wiznet_rs.Ring.Refine.{length-contents}

-- `s` is the ring `r` after its oldest `n` bytes were taken out.
pub record Consumed (n : ℕ) (r s : SpscRing) : Type 0 where
  pub valid : IsValid s
  pub left : contents s ≡ drop n (contents r)
  pub cap_same : s.cap ≡ r.cap
  pub frames_in_same : s.frames_in ≡ r.frames_in
  pub frames_out_same : s.frames_out ≡ r.frames_out

pub Consumed-zero : (r : SpscRing) → IsValid r → Consumed 0 r r
Consumed-zero r v = record {
  valid = v;
  left = refl;
  cap_same = refl;
  frames_in_same = refl;
  frames_out_same = refl;
}

pub Consumed-add :
    (m n : ℕ) {r s t : SpscRing} → Consumed m r s → Consumed n s t → Consumed (m + n) r t
Consumed-add m n {r} c d = record {
  valid = d.valid;
  left = d.left ∙ ap (drop n) c.left ∙ sym (drop-add m n (contents r));
  cap_same = d.cap_same ∙ c.cap_same;
  frames_in_same = d.frames_in_same ∙ c.frames_in_same;
  frames_out_same = d.frames_out_same ∙ c.frames_out_same;
}

-- A read into a slice that the stored bytes fill.
pub read-full :
    (r : SpscRing) (dst : List ℕ)
    → IsValid r
    → length dst ≤ length (contents r)
    → let (n, dst', r') = read r dst in
      (n ≡ length dst) × (dst' ≡ take (length dst) (contents r)) × Consumed (length dst) r r'
unfolding len
read-full r dst v h =
    let (count, got, left, valid, tail_same, buf_same, cap_same, fi, fo) = read_lem r v dst in
    let all : (read r dst).0 ≡ length dst = count ∙ omega (arith, length-contents r) in
    (
      all,
      got
          ∙ ap (λ k. take k (contents r) ++ drop k dst) all
          ∙ ap (λ ys. take (length dst) (contents r) ++ ys)
              (drop-all (length dst) dst (omega arith))
          ∙ append-nil _,
      record {
        valid = valid;
        left = left ∙ ap (λ k. drop k (contents r)) all;
        cap_same = cap_same;
        frames_in_same = fi;
        frames_out_same = fo;
      },
    )

pub Consumed-length :
    (n : ℕ) {r s : SpscRing} → Consumed n r s → length (contents s) ≡ length (contents r) - n
Consumed-length n {r} c = ap length c.left ∙ length-drop n (contents r)
