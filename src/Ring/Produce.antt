-- ===== src/Ring/Produce.antt =====
-- wiznet-rs/src/spsc_ring.rs: writes of bytes that are known to fit, one after another.
use wiznet_rs.Prelude.{ℕ, ◌+◌, ◌≤◌, ◌≡◌, ap, ◌∙◌, List, ◌++◌, arith, length, take-all, append_assoc}
use wiznet_rs.Ring
use wiznet_rs.Ring.{SpscRing, wrapping_sub}
use wiznet_rs.Ring.Bounds.{IsValid, contents}
use wiznet_rs.Ring.Write.{write_lem}
use wiznet_rs.Ring.Refine.{length-contents}

-- `s` is the ring `r` after `bytes` went in behind what it stores.
pub record Appended (r s : SpscRing) (bytes : List ℕ) : Type 0 where
  pub valid : IsValid s
  pub added : contents s ≡ contents r ++ bytes
  pub cap_same : s.cap ≡ r.cap
  pub frames_in_same : s.frames_in ≡ r.frames_in
  pub frames_out_same : s.frames_out ≡ r.frames_out

pub write-Appended :
    (r : SpscRing) (bytes : List ℕ)
    → IsValid r
    → length bytes + length (contents r) ≤ r.cap
    → Appended r (Ring.write r bytes).1 bytes
unfolding Ring.free Ring.len
write-Appended r bytes v h =
    let (count, bytes_in, valid, head_same, cap_same, fi, fo) = write_lem r v bytes in
    record {
      valid = valid;
      added =
          bytes_in
          ∙ ap (λ ys. contents r ++ ys)
              (take-all (Ring.write r bytes).0 bytes
                (omega (arith, count, length-contents r, v.len_in)));
      cap_same = cap_same;
      frames_in_same = fi;
      frames_out_same = fo;
    }

pub Appended-append :
    {r s t : SpscRing} (xs ys : List ℕ)
    → Appended r s xs
    → Appended s t ys
    → Appended r t (xs ++ ys)
Appended-append {r} xs ys a b = record {
  valid = b.valid;
  added = b.added ∙ ap (λ zs. zs ++ ys) a.added ∙ append_assoc (contents r) xs ys;
  cap_same = b.cap_same ∙ a.cap_same;
  frames_in_same = b.frames_in_same ∙ a.frames_in_same;
  frames_out_same = b.frames_out_same ∙ a.frames_out_same;
}
