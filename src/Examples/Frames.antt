-- ===== src/Examples/Frames.antt =====
-- A datagram through a ring of sixteen bytes.
use wiznet_rs.Prelude.{subst, ◌≡◌, refl, ◌∣◌, ◌<◌, ◌≤◌, ◌^◌, ◌++◌, ◌⊎◌, [], ◌∷◌, arith, replicate}
use wiznet_rs.Exec.{ok}
use wiznet_rs.Ring
use wiznet_rs.Ring.{SpscRing, install}
use wiznet_rs.Registers.Codes.{SocketStatusRegister, status_code, status_of_code, established}
use wiznet_rs.Registers.Laws.{status_of_code-status_code, status_code-status_of_code}
use wiznet_rs.Udp.Frame.{SocketAddr, frame_header, parse_frame_header}
use wiznet_rs.Udp.Handle.{send_to, recv_from}
use wiznet_rs.Udp.Queue.{Datagram, Fits, Holds, parse_frame_header-frame_header}
use wiznet_rs.Udp.Send.{send_to_lem}
use wiznet_rs.Udp.Receive.{spec_recv, recv_from_lem}

abbrev pub peer : SocketAddr
peer = record { ip = 0xC0A8_0001; port = 7 }

abbrev pub ping : Datagram
ping = record { payload = 1 ∷ 2 ∷ 3 ∷ []; peer = peer }

pub ping-Fits : Fits ping
ping-Fits = record { len_fits = omega arith; ip_fits = omega arith; port_fits = omega arith }

sixteen-divides : 16 ∣ 2 ^ 32
sixteen-divides = ∣ (2 ^ 28, refl) ∣₁

abbrev pub empty : SpscRing
empty = record { buf = replicate 16 0; cap = 16; head = 0; tail = 0; frames_in = 0; frames_out = 0 }

pub empty-Holds : Holds empty []
empty-Holds = record {
  valid = record {
    sized = refl;
    positive = omega arith;
    small = omega arith;
    aligned = sixteen-divides;
    head_in = omega arith;
    tail_in = omega arith;
    len_in = omega arith;
  };
  bytes = refl;
  fit = tt;
  in_range = omega arith;
  out_range = omega arith;
  counted = refl;
}

send_to_lem_example :
    let (n, r') = send_to (1 ∷ 2 ∷ 3 ∷ []) peer empty in
    ((Ring.free empty < 11) × (n ≡ 0) × (r' ≡ empty))
    ⊎ ((11 ≤ Ring.free empty) × (n ≡ 3) × Holds r' (ping ∷ []))
send_to_lem_example = send_to_lem empty [] ping empty-Holds ping-Fits

-- the ring that the send leaves
abbrev pub one : SpscRing
one = record {
  buf = 0 ∷ 3 ∷ 0xC0 ∷ 0xA8 ∷ 0 ∷ 1 ∷ 0 ∷ 7 ∷ 1 ∷ 2 ∷ 3 ∷ replicate 5 0;
  cap = 16;
  head = 0;
  tail = 11;
  frames_in = 1;
  frames_out = 0;
}

send_to-empty : send_to (1 ∷ 2 ∷ 3 ∷ []) peer empty ≡ (3, one)
unfolding send_to Ring.write Ring.copy_in Ring.commit_frame Ring.free Ring.len frame_header
send_to-empty = refl

pub one-Holds : Holds one (ping ∷ [])
unfolding frame_header
one-Holds = record {
  valid = record {
    sized = refl;
    positive = omega arith;
    small = omega arith;
    aligned = sixteen-divides;
    head_in = omega arith;
    tail_in = omega arith;
    len_in = omega arith;
  };
  bytes = refl;
  fit = (ping-Fits, tt);
  in_range = omega arith;
  out_range = omega arith;
  counted = refl;
}

recv_from_lem_example :
    (r' : SpscRing) × (recv_from (0 ∷ 0 ∷ []) one ≡ (ok (spec_recv (ping ∷ []) (0 ∷ 0 ∷ [])).0, r'))
    × Holds r' (spec_recv (ping ∷ []) (0 ∷ 0 ∷ [])).1
recv_from_lem_example = recv_from_lem (ping ∷ []) one (0 ∷ 0 ∷ []) one-Holds

parse_frame_header-frame_header_example :
    parse_frame_header (frame_header 3 peer ++ 9 ∷ []) ≡ (3, peer)
parse_frame_header-frame_header_example =
    parse_frame_header-frame_header 3 peer (9 ∷ []) (omega arith) (omega arith) (omega arith)

status_of_code-status_code_example : status_of_code (status_code established) ≡ established
status_of_code-status_code_example = status_of_code-status_code established

known : status_of_code 0x17 ≡ SocketStatusRegister.unknown → ⊥
unfolding status_of_code
known e = absurd (subst is_established e tt)
  where
    is_established : SocketStatusRegister → Type 0
    is_established established = Unit
    is_established _ = ⊥

status_code-status_of_code_example : status_code (status_of_code 0x17) ≡ 0x17
status_code-status_of_code_example = status_code-status_of_code 0x17 known
