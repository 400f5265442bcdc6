-- ===== src/Chip/Life/Open.antt =====
-- wiznet-rs/src/lib.rs: `open_tcp_connect`, `open_tcp_listen` and `open_udp` on slots in order.
use wiznet_rs.Prelude.{
  ℕ, ◌+◌, ◌<◌, ◌∣◌, ◌≡◌, refl, ap, suc, Bool, true, false, List, [], ◌∷◌, if◌then◌else◌, length,
}
use wiznet_rs.Exec.{Result, ok}
use wiznet_rs.Ring.{usize_mod}
use wiznet_rs.Ring.Refine.{install-IsValid}
use wiznet_rs.Tick
use wiznet_rs.Tick.{SocketRings}
use wiznet_rs.Backend.{SocketBackend, Socket, is_free}
use wiznet_rs.Chip.Open.{open_slot, open_first}
use wiznet_rs.Chip.Round.{RingsValid, valid-InOrder, AllValid}

-- A buffer that a ring can work in: not empty, and of a size that divides 2^32.
pub record Storage (buf : List ℕ) : Type 0 where
  pub positive : 0 < length buf
  pub small : length buf < usize_mod
  pub aligned : length buf ∣ usize_mod

module _ (claim : SocketBackend → Bool × SocketBackend) (rx tx : List ℕ) (rx_fits : Storage rx)
    (tx_fits : Storage tx) where
  installed : (rings : SocketRings) → RingsValid (Tick.install rings rx tx)
  unfolding Tick.install
  installed rings = (
    (install-IsValid rings.rx rx rx_fits.positive rx_fits.small rx_fits.aligned).0,
    (install-IsValid rings.tx tx tx_fits.positive tx_fits.small tx_fits.aligned).0,
  )

  abbrev Same : List Socket → Result ℕ × List Socket → Type 0
  Same ss (r, ss') = AllValid ss' × (length ss' ≡ length ss)

  passed :
      (s : Socket) (ss : List Socket) (m : Result ℕ × List Socket)
      → AllValid (s ∷ ss)
      → Same ss m
      → Same (s ∷ ss) (m.0, s ∷ m.1)
  passed s ss m v (rest, same) = ((v.0, rest), ap suc same)

  opened :
      (busy unused : Bool) (i : ℕ) (s : Socket) (ss : List Socket) (m : Result ℕ × List Socket)
      → AllValid (s ∷ ss)
      → Same ss m
      → Same (s ∷ ss) (
          if busy
          then (m.0, s ∷ m.1)
          else if unused
          then (ok i, open_slot claim rx tx s ∷ ss)
          else (m.0, s ∷ m.1))
  unfolding open_slot
  opened true unused i s ss m v k = passed s ss m v k
  opened false true i s ss m v k =
      ((valid-InOrder (claim s.backend.cell).1.state _ (installed s.rings), v.1), refl)
  opened false false i s ss m v k = passed s ss m v k

  -- The search gives at most one slot new rings, which are valid.
  pub open_first-AllValid :
      (i : ℕ) (ss : List Socket)
      → AllValid ss
      → let (r, ss') = open_first claim rx tx i ss in AllValid ss' × (length ss' ≡ length ss)
  unfolding open_first
  open_first-AllValid i [] v = (tt, refl)
  open_first-AllValid i (s ∷ ss) v =
      opened s.backend.busy (is_free s.backend.cell) i s ss (open_first claim rx tx (i + 1) ss) v
        (open_first-AllValid (i + 1) ss v.1)
