-- ===== src/Chip/State.antt =====
-- wiznet-rs/src/lib.rs: the driver's state, its registers, and a body under the device's lock.
use wiznet_rs.Prelude.{ℕ, ◌%◌, ◌/◌, Bool, ◌&&◌, List, [], ◌∷◌, Option, ◌==◌}
use wiznet_rs.Exec.{Result, Exec, pure, ◌>>=◌, ◌>>◌}
use wiznet_rs.Cell
use wiznet_rs.Cell.{AtomicCell, with_lock_mut, with_lock_mut_env}
use wiznet_rs.Spi.{SpiDmaDevice}
use wiznet_rs.Transceiver.Block.{
  BlockSelectionBits, common_register, socket0_register, socket0_tx_buffer, socket0_rx_buffer,
  socket1_register, socket1_tx_buffer, socket1_rx_buffer, socket2_register, socket2_tx_buffer,
  socket2_rx_buffer, socket3_register, socket3_tx_buffer, socket3_rx_buffer, socket4_register,
  socket4_tx_buffer, socket4_rx_buffer, socket5_register, socket5_tx_buffer, socket5_rx_buffer,
  socket6_register, socket6_tx_buffer, socket6_rx_buffer, socket7_register, socket7_tx_buffer,
  socket7_rx_buffer, BlockAddress, Address,
}
use wiznet_rs.Transceiver.Execute.{Transceiver, read_u8, write_bytes, write_u8, write_u32}
use wiznet_rs.Tick
use wiznet_rs.Tick.{BulkKind}
use wiznet_rs.Backend
use wiznet_rs.Backend.{Socket}

abbrev common : ℕ → Address
common address = record { address = address; block = common_register }

abbrev pub cidr : Address
cidr = common 0x0

abbrev pub ver : Address
ver = common 0x2

abbrev pub sycr1 : Address
sycr1 = common 0x2005

abbrev pub shar : Address
shar = common 0x4120

abbrev pub gar : Address
gar = common 0x4130

abbrev pub subr : Address
subr = common 0x4134

abbrev pub sipr : Address
sipr = common 0x4138

abbrev pub chplckr : Address
chplckr = common 0x41F4

abbrev pub netlckr : Address
netlckr = common 0x41F5

abbrev pub simr : Address
simr = common 0x2114

abbrev pub physr : Address
physr = common 0x3000

pub record NetworkConfig : Type 0 where
  pub ip : ℕ
  pub gateway : ℕ
  pub subnet : ℕ

pub record BulkOp : Type 0 where
  pub idx : ℕ
  pub kind : BulkKind
  pub block : BlockAddress
  pub pointer : ℕ
  pub len : ℕ

-- The reset pin, `embedded_hal::digital::OutputPin`, is no code of the crate: its operations are
-- parameters, and say whether they succeeded.
pub record OutputPin : Type 1 where
  pub Pin : Type 0
  pub set_low : Pin → Bool × Pin
  pub set_high : Pin → Bool × Pin

module _ (spi : SpiDmaDevice) (out : OutputPin) where
  pub record Device : Type 0 where
    pub transport : Transceiver spi
    pub rst : out.Pin

  pub record W6100 : Type 0 where
    pub device : AtomicCell Device
    pub mac : List ℕ
    pub config : AtomicCell (Option NetworkConfig)
    pub config_dirty : Bool
    pub link_up : Bool
    pub sockets : List Socket
    pub bulk : AtomicCell (Option BulkOp)

  -- What a body under the device's lock can change.
  pub record Locked : Type 0 where
    pub device : Device
    pub sockets : List Socket
    pub bulk : AtomicCell (Option BulkOp)

  abbrev enter : W6100 → Device → Locked
  enter w d = record { device = d; sockets = w.sockets; bulk = w.bulk }

  abbrev leave {ℓ} :
      {A : Type ℓ}
      → Result A × Locked
      → Result A × (Device × (List Socket × AtomicCell (Option BulkOp)))
  leave (r, l) = (r, (l.device, (l.sockets, l.bulk)))

  abbrev restore {ℓ} :
      {A : Type ℓ}
      → W6100
      → Result A × (AtomicCell Device × (List Socket × AtomicCell (Option BulkOp)))
      → Result A × W6100
  restore w (r, (d, (ss, b))) = (r, record w { device = d; sockets = ss; bulk = b })

  -- `let mut dev_guard = self.device.lock_mut()?; …`
  abbrev pub with_device : {A : Type 0} → Exec Locked A → Exec W6100 A
  with_device body w = restore w (
      with_lock_mut_env
        (λ (d, (ss, b)). leave (body (record { device = d; sockets = ss; bulk = b })))
        (w.device, (w.sockets, w.bulk)))

  abbrev pub on_transport : {A : Type 0} → Exec (Transceiver spi) A → Exec Locked A
  on_transport m l =
      let (r, t) = m l.device.transport in
      (r, record l { device = record l.device { transport = t } })

abbrev pub make_socket : (reg tx rx : BlockSelectionBits) → Socket
make_socket reg tx rx = record {
  backend = Cell.new (Backend.new (record { reg = reg; tx = tx; rx = rx }));
  rings = Tick.new;
}

-- the eight slots of `W6100::new`
abbrev pub all_sockets : List Socket
all_sockets =
    make_socket socket0_register socket0_tx_buffer socket0_rx_buffer
    ∷ make_socket socket1_register socket1_tx_buffer socket1_rx_buffer
    ∷ make_socket socket2_register socket2_tx_buffer socket2_rx_buffer
    ∷ make_socket socket3_register socket3_tx_buffer socket3_rx_buffer
    ∷ make_socket socket4_register socket4_tx_buffer socket4_rx_buffer
    ∷ make_socket socket5_register socket5_tx_buffer socket5_rx_buffer
    ∷ make_socket socket6_register socket6_tx_buffer socket6_rx_buffer
    ∷ make_socket socket7_register socket7_tx_buffer socket7_rx_buffer
    ∷ []

-- CAB_MASK is bit 7 and LINK_MASK bit 0 of the PHY status: the cable is on, and the link is up.
unfoldable pub link_of_status : ℕ → Bool
link_of_status v = (v / 128 % 2 == 0) && (v % 2 == 1)

module _ (spi : SpiDmaDevice) (out : OutputPin) where
  unfoldable pub is_link_up : Exec (W6100 spi out) Bool
  unfolding link_of_status
  is_link_up = do
    status ← with_device spi out (on_transport spi out (read_u8 spi physr))
    pure (link_of_status status)

  -- The network registers are unlocked, written and locked again.
  unfoldable pub write_network : List ℕ → NetworkConfig → Exec (Transceiver spi) (Unit {0})
  write_network mac config = do
    write_u8 spi netlckr 0x3A
    write_bytes spi shar mac
    write_u32 spi sipr config.ip
    write_u32 spi gar config.gateway
    write_u32 spi subr config.subnet
    write_u8 spi netlckr 0xC5

  unfoldable pub setup_network : NetworkConfig → Exec (W6100 spi out) (Unit {0})
  unfolding write_network
  setup_network config w = with_device spi out (on_transport spi out (write_network w.mac config)) w
