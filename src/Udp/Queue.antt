-- ===== src/Udp/Queue.antt =====
-- wiznet-rs/src/udp_socket.rs: a ring of frames as the queue of the datagrams in it.
use wiznet_rs.Prelude.{
  ℕ, suc, ◌+◌, ◌*◌, ◌^◌, ◌≤◌, ◌<◌, ◌≡◌, refl, sym, ap, ◌∙◌, List, [], ◌∷◌, ◌++◌, arith, length,
  length-append, append-nil, append_assoc,
}
use wiznet_rs.Bytes.{u16_round_trip, u32_round_trip}
use wiznet_rs.Ring.{SpscRing, usize_mod, wrapping_sub}
use wiznet_rs.Ring.Bounds.{IsValid, contents}
use wiznet_rs.Udp.Frame.{SocketAddr, frame_header, parse_frame_header}

pub record Datagram : Type 0 where
  pub payload : List ℕ
  pub peer : SocketAddr

-- What the frame's fields can hold.
pub record Fits (d : Datagram) : Type 0 where
  pub len_fits : length d.payload < 2 ^ 16
  pub ip_fits : d.peer.ip < 2 ^ 32
  pub port_fits : d.peer.port < 2 ^ 16

abbrev pub encode : Datagram → List ℕ
encode d = frame_header (length d.payload) d.peer ++ d.payload

abbrev pub encode_all : List Datagram → List ℕ
encode_all [] = []
encode_all (d ∷ ds) = encode d ++ encode_all ds

abbrev pub AllFit : List Datagram → Type 0
AllFit [] = Unit
AllFit (d ∷ ds) = Fits d × AllFit ds

-- A header whose length and peer fit their fields is read back as just these, whatever follows it.
pub parse_frame_header-frame_header :
    (len : ℕ) (addr : SocketAddr) (rest : List ℕ)
    → len < 2 ^ 16
    → addr.ip < 2 ^ 32
    → addr.port < 2 ^ 16
    → parse_frame_header (frame_header len addr ++ rest) ≡ (len, addr)
unfolding parse_frame_header frame_header
parse_frame_header-frame_header len addr rest hl hi hp =
    ground (arith, u16_round_trip len, u32_round_trip addr.ip, u16_round_trip addr.port)

pub length-frame_header : (len : ℕ) (addr : SocketAddr) → length (frame_header len addr) ≡ 8
unfolding frame_header
length-frame_header len addr = refl

pub length-encode : (d : Datagram) → length (encode d) ≡ 8 + length d.payload
length-encode d = omega (
  arith,
  length-append (frame_header (length d.payload) d.peer) d.payload,
  length-frame_header (length d.payload) d.peer,
)

pub encode_all-append :
    (ds : List Datagram) (d : Datagram) → encode_all (ds ++ d ∷ []) ≡ encode_all ds ++ encode d
encode_all-append [] d = append-nil (encode d)
encode_all-append (e ∷ ds) d =
    ap (λ ys. encode e ++ ys) (encode_all-append ds d)
    ∙ sym (append_assoc (encode e) (encode_all ds) (encode d))

pub AllFit-append : (ds : List Datagram) (d : Datagram) → AllFit ds → Fits d → AllFit (ds ++ d ∷ [])
AllFit-append [] d h f = (f, tt)
AllFit-append (e ∷ ds) d h f = (h.0, AllFit-append ds d h.1 f)

pub length-snoc : (ds : List Datagram) (d : Datagram) → length (ds ++ d ∷ []) ≡ suc (length ds)
length-snoc ds d = omega (arith, length-append ds (d ∷ []))

-- Every frame takes at least its header, so there are fewer frames than bytes.
pub frames-le : (ds : List Datagram) → 8 * length ds ≤ length (encode_all ds)
frames-le [] = omega arith
frames-le (d ∷ ds) =
    omega (arith, frames-le ds, length-encode d, length-append (encode d) (encode_all ds))

-- The ring stores just the frames of `ds`, and counts them as published.
pub record Holds (r : SpscRing) (ds : List Datagram) : Type 0 where
  pub valid : IsValid r
  pub bytes : contents r ≡ encode_all ds
  pub fit : AllFit ds
  pub in_range : r.frames_in < usize_mod
  pub out_range : r.frames_out < usize_mod
  pub counted : wrapping_sub r.frames_in r.frames_out ≡ length ds
