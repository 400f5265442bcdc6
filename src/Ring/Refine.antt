-- ===== src/Ring/Refine.antt =====
-- wiznet-rs/src/spsc_ring.rs: a ring and the queue of the bytes that it stores.
use wiznet_rs.Prelude.{ℕ, ◌<◌, ◌∣◌, ◌≡◌, refl, ap, ap₂, ◌∙◌, List, [], ◌∷◌, arith, length}
use wiznet_rs.Ring
use wiznet_rs.Ring.{SpscRing, usize_mod, wrapping_sub, install}
use wiznet_rs.Ring.Window.{length-span}
use wiznet_rs.Ring.Frames.{clear-IsValid, commit_frame-IsValid, release_frame-IsValid}
use wiznet_rs.Ring.Bounds.{IsValid, contents}
use wiznet_rs.Ring.Write.{write_lem}
use wiznet_rs.Ring.Read.{read_lem, peek_lem}
use wiznet_rs.Ring.Queue.{
  Call, write, read, peek, len, free, frames, commit_frame, release_frame, clear, Reply, call, run,
  Queue, spec_call, spec_run,
}

-- what a ring stands for
abbrev pub queue : SpscRing → Queue
queue r = record { bytes = contents r; frames_in = r.frames_in; frames_out = r.frames_out }

pub length-contents : (r : SpscRing) → length (contents r) ≡ wrapping_sub r.tail r.head
length-contents r = length-span r.cap r.buf r.head (wrapping_sub r.tail r.head)

-- Every call keeps the ring valid and its capacity, and acts on its queue as specified.
pub call_refines :
    (r : SpscRing) (c : Call)
    → IsValid r
    → let (reply, r') = call r c in
      IsValid r' × (r'.cap ≡ r.cap) × ((reply, queue r') ≡ spec_call r.cap (queue r) c)
unfolding call spec_call Ring.len Ring.free Ring.frames Ring.commit_frame Ring.release_frame
    Ring.clear
call_refines r (write src) v =
    let w = write_lem r v src in (w.2, w.4, ground (arith, w, length-contents r))
call_refines r (read dst) v =
    let w = read_lem r v dst in (w.3, w.6, ground (arith, w, length-contents r))
call_refines r (peek dst) v = (v, refl, ground (arith, peek_lem r v dst, length-contents r))
call_refines r len v = (v, refl, ground (arith, length-contents r))
call_refines r free v = (v, refl, ground (arith, length-contents r))
call_refines r frames v = (v, refl, refl)
call_refines r commit_frame v = (commit_frame-IsValid r v, refl, refl)
call_refines r release_frame v = (release_frame-IsValid r v, refl, refl)
call_refines r clear v = (clear-IsValid r v, refl, refl)

-- No sequence of calls tells a valid ring from the bounded queue of its bytes: every call gives
-- the same reply, in order.
pub run_refines :
    (cs : List Call) (r : SpscRing) → IsValid r → run r cs ≡ spec_run r.cap (queue r) cs
unfolding run spec_run
run_refines [] r v = refl
run_refines (c ∷ cs) r v =
    let w = call_refines r c v in
    ap₂ ◌∷◌ (ap (λ (t : Reply × Queue). t.0) w.2) (
      run_refines cs (call r c).1 w.0
      ∙ ap₂ (λ k q. spec_run k q cs) w.1 (ap (λ (t : Reply × Queue). t.1) w.2))

-- What `install` makes of a buffer that is not empty, whose size is a `usize` and divides 2^32, is
-- a valid ring with no bytes and no frames.
pub install-IsValid :
    (r : SpscRing) (storage : List ℕ)
    → 0 < length storage
    → length storage < usize_mod
    → length storage ∣ usize_mod
    → IsValid (install r storage)
      × (queue (install r storage) ≡ record { bytes = []; frames_in = 0; frames_out = 0 })
unfolding install
install-IsValid r storage pos small div = (
  record {
    sized = refl;
    positive = pos;
    small = small;
    aligned = div;
    head_in = omega arith;
    tail_in = omega arith;
    len_in = omega arith;
  },
  refl,
)
