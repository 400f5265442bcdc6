-- ===== src/Examples/Rings.antt =====
-- Rings of four bytes.
use wiznet_rs.Prelude.{ℕ, ◌≡◌, refl, ◌∣◌, ◌^◌, ◌++◌, min, List, [], ◌∷◌, arith, take, drop}
use wiznet_rs.Ring
use wiznet_rs.Ring.{SpscRing, install, wrapping_add, wrapping_sub}
use wiznet_rs.Ring.Bounds.{IsValid, contents}
use wiznet_rs.Ring.Queue.{Call, write, read, peek, len, frames, commit_frame, run, spec_run}
use wiznet_rs.Ring.Refine.{queue, run_refines, install-IsValid}
use wiznet_rs.Ring.Write.{write_lem}
use wiznet_rs.Ring.Read.{read_lem, peek-read}

abbrev pub four_bytes : List ℕ
four_bytes = 0 ∷ 0 ∷ 0 ∷ 0 ∷ []

pub four-divides : 4 ∣ 2 ^ 32
four-divides = ∣ (2 ^ 30, refl) ∣₁

abbrev pub empty : SpscRing
empty = record { buf = four_bytes; cap = 4; head = 0; tail = 0; frames_in = 0; frames_out = 0 }

-- 8, 9 and 7 round the end of the storage and of the counters
abbrev pub wrapped : SpscRing
wrapped = record {
  buf = 7 ∷ 0 ∷ 8 ∷ 9 ∷ [];
  cap = 4;
  head = 0xFFFF_FFFE;
  tail = 1;
  frames_in = 0;
  frames_out = 0;
}

pub wrapped-IsValid : IsValid wrapped
wrapped-IsValid = record {
  sized = refl;
  positive = omega arith;
  small = omega arith;
  aligned = four-divides;
  head_in = omega arith;
  tail_in = omega arith;
  len_in = omega arith;
}

contents-wrapped : contents wrapped ≡ 8 ∷ 9 ∷ 7 ∷ []
contents-wrapped = refl

abbrev script : List Call
script =
    write (1 ∷ 2 ∷ 3 ∷ [])
    ∷ peek (0 ∷ [])
    ∷ read (0 ∷ 0 ∷ [])
    ∷ commit_frame
    ∷ frames
    ∷ write (4 ∷ 5 ∷ [])
    ∷ len
    ∷ []

run_refines_example : run wrapped script ≡ spec_run 4 (queue wrapped) script
run_refines_example = run_refines script wrapped wrapped-IsValid

install-IsValid_example :
    IsValid (install Ring.new four_bytes)
    × (queue (install Ring.new four_bytes) ≡ record { bytes = []; frames_in = 0; frames_out = 0 })
install-IsValid_example =
    install-IsValid Ring.new four_bytes (omega arith) (omega arith) four-divides

peek-read_example :
    Ring.peek wrapped (0 ∷ 0 ∷ [])
    ≡ ((Ring.read wrapped (0 ∷ 0 ∷ [])).0, (Ring.read wrapped (0 ∷ 0 ∷ [])).1)
peek-read_example = peek-read wrapped wrapped-IsValid (0 ∷ 0 ∷ [])

write_lem_example :
    let (n, r') = Ring.write wrapped (1 ∷ 2 ∷ []) in
    (n ≡ min 2 (Ring.free wrapped))
    × (contents r' ≡ contents wrapped ++ take n (1 ∷ 2 ∷ []))
    × IsValid r'
    × (r'.head ≡ 0xFFFF_FFFE)
    × (r'.cap ≡ 4)
    × (r'.frames_in ≡ 0)
    × (r'.frames_out ≡ 0)
write_lem_example = write_lem wrapped wrapped-IsValid (1 ∷ 2 ∷ [])

read_lem_example :
    let (n, dst', r') = Ring.read wrapped (0 ∷ 0 ∷ []) in
    (n ≡ min 2 (Ring.len wrapped))
    × (dst' ≡ take n (contents wrapped) ++ drop n (0 ∷ 0 ∷ []))
    × (contents r' ≡ drop n (contents wrapped))
    × IsValid r'
    × (r'.tail ≡ 1)
    × (r'.buf ≡ wrapped.buf)
    × (r'.cap ≡ 4)
    × (r'.frames_in ≡ 0)
    × (r'.frames_out ≡ 0)
read_lem_example = read_lem wrapped wrapped-IsValid (0 ∷ 0 ∷ [])
