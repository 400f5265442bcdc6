-- ===== src/Ring/Frames.antt =====
-- wiznet-rs/src/spsc_ring.rs: the operations that move no bytes, on a valid ring.
use wiznet_rs.Prelude.{ℕ, arith}
use wiznet_rs.Ring
use wiznet_rs.Ring.{SpscRing, wrapping_add}
use wiznet_rs.Ring.Bounds.{IsValid}

-- An update of the frame counts, which the byte window does not read.
pub reframed :
    (r : SpscRing) (i o : ℕ) → IsValid r → IsValid (record r { frames_in = i; frames_out = o })
reframed r i o v = record {
  sized = v.sized;
  positive = v.positive;
  small = v.small;
  aligned = v.aligned;
  head_in = v.head_in;
  tail_in = v.tail_in;
  len_in = v.len_in;
}

pub commit_frame-IsValid : (r : SpscRing) → IsValid r → IsValid (Ring.commit_frame r)
unfolding Ring.commit_frame
commit_frame-IsValid r v = reframed r (wrapping_add r.frames_in 1) r.frames_out v

pub release_frame-IsValid : (r : SpscRing) → IsValid r → IsValid (Ring.release_frame r)
unfolding Ring.release_frame
release_frame-IsValid r v = reframed r r.frames_in (wrapping_add r.frames_out 1) v

pub clear-IsValid : (r : SpscRing) → IsValid r → IsValid (Ring.clear r)
unfolding Ring.clear
clear-IsValid r v = record {
  sized = v.sized;
  positive = v.positive;
  small = v.small;
  aligned = v.aligned;
  head_in = omega arith;
  tail_in = omega arith;
  len_in = omega arith;
}
