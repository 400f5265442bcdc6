-- ===== src/Ring/Queue.antt =====
-- The abstract view of a ring: a FIFO of at most `cap` bytes with the published frames, and the
-- calls that the two ends make of it.
use wiznet_rs.Prelude.{ℕ, ◌-◌, min, List, [], ◌∷◌, ◌++◌, length, take, drop}
use wiznet_rs.Ring
use wiznet_rs.Ring.{SpscRing, wrapping_add, wrapping_sub}

-- A call, with the slice that it is given.
pub data Call : Type 0 where
  write read peek : List ℕ → Call
  len free frames : Call
  commit_frame release_frame clear : Call

-- What a call returns: its number, and the slice of `read` and `peek` afterwards.
abbrev pub Reply : Type 0
Reply = ℕ × List ℕ

unfoldable pub call : SpscRing → Call → Reply × SpscRing
call r (write src) = let (n, r') = Ring.write r src in ((n, []), r')
call r (read dst) = let (n, dst', r') = Ring.read r dst in ((n, dst'), r')
call r (peek dst) = let (n, dst') = Ring.peek r dst in ((n, dst'), r)
call r len = ((Ring.len r, []), r)
call r free = ((Ring.free r, []), r)
call r frames = ((Ring.frames r, []), r)
call r commit_frame = ((0, []), Ring.commit_frame r)
call r release_frame = ((0, []), Ring.release_frame r)
call r clear = ((0, []), Ring.clear r)

unfoldable pub run : SpscRing → List Call → List Reply
unfolding call
run r [] = []
run r (c ∷ cs) = let (reply, r') = call r c in reply ∷ run r' cs

-- The specification: bytes, oldest first, and the two frame counts.
pub record Queue : Type 0 where
  pub bytes : List ℕ
  pub frames_in : ℕ
  pub frames_out : ℕ

module _ (cap : ℕ) where
  unfoldable pub spec_call : Queue → Call → Reply × Queue
  spec_call q (write src) =
      let n = min (length src) (cap - length q.bytes) in
      ((n, []), record q { bytes = q.bytes ++ take n src })
  spec_call q (read dst) =
      let n = min (length dst) (length q.bytes) in
      ((n, take n q.bytes ++ drop n dst), record q { bytes = drop n q.bytes })
  spec_call q (peek dst) =
      let n = min (length dst) (length q.bytes) in ((n, take n q.bytes ++ drop n dst), q)
  spec_call q len = ((length q.bytes, []), q)
  spec_call q free = ((cap - length q.bytes, []), q)
  spec_call q frames = ((wrapping_sub q.frames_in q.frames_out, []), q)
  spec_call q commit_frame = ((0, []), record q { frames_in = wrapping_add q.frames_in 1 })
  spec_call q release_frame = ((0, []), record q { frames_out = wrapping_add q.frames_out 1 })
  spec_call q clear = ((0, []), record { bytes = []; frames_in = 0; frames_out = 0 })

  unfoldable pub spec_run : Queue → List Call → List Reply
  unfolding spec_call
  spec_run q [] = []
  spec_run q (c ∷ cs) = let (reply, q') = spec_call q c in reply ∷ spec_run q' cs
