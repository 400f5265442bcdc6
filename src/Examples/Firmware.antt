-- ===== src/Examples/Firmware.antt =====
-- The echo firmware: its loops on small rings, and its transport on a HAL that moves nothing.
use wiznet_rs.Prelude.{ℕ, ◌+◌, ◌*◌, ◌≤◌, ◌<◌, ◌≡◌, refl, List, [], ◌∷◌, false, some, arith, none}
use wiznet_rs.Exec.{ok}
use wiznet_rs.Ring
use wiznet_rs.Tick.{established}
use wiznet_rs.Spi.{DmaBuffers, KeepsBuffers}
use wiznet_rs.Tcp.State
use wiznet_rs.Tcp.State.{TcpSocketState}
use wiznet_rs.Backend.{Socket, tcp, as_tcp}
use wiznet_rs.Udp.Queue.{Datagram, Holds}
use wiznet_rs.Echo.Tcp.{TcpEcho, echo_loop}
use wiznet_rs.Echo.TcpStep.{Staged, Echoed}
use wiznet_rs.Echo.TcpLoop.{Stopped, echo_loop_lem}
use wiznet_rs.Echo.Udp.{UdpEcho, udp_echo_loop}
use wiznet_rs.Echo.UdpStep.{Ready, Bounced, Halted}
use wiznet_rs.Echo.UdpLoop.{udp_echo_loop_lem}
use wiznet_rs.Echo.UdpEmpty.{empty_to, empty_datagram_repeats}
use wiznet_rs.Echo.Main.{Led, TcpSide, tcp_wake}
use wiznet_rs.Echo.MainLaws.{Woken, tcp_wake_lem}
use wiznet_rs.Echo.HalSpi.{Hal, HalSpi, RxWindow, TxWindow, hal_device, delay_cycles}
use wiznet_rs.Echo.HalLaws.{Documented, hal_device-KeepsBuffers, delay_cycles-bounds}
use wiznet_rs.Examples.Rings.{wrapped, wrapped-IsValid}
use wiznet_rs.Examples.Frames.{peer, ping, ping-Fits, one, one-Holds, empty, empty-Holds}
use wiznet_rs.Examples.Sockets.{block}

-- an established connection
abbrev connection : TcpSocketState
connection = record {
  mode = State.listen_on 5555;
  status = established;
  pending_error = none;
  close_requested = false;
}

-- three bytes to echo, one byte of room, and one byte carried over
abbrev slot : Socket
slot = record {
  backend = record {
    cell = record { block = block; state = tcp connection; release_requested = false };
    busy = false;
  };
  rings = record { rx = wrapped; tx = wrapped };
}

abbrev stream : TcpEcho
stream = record { sock = slot; buf = 4 ∷ 5 ∷ []; len = 2; off = 1 }

stream-Staged : Staged stream
stream-Staged = record {
  rx_valid = wrapped-IsValid;
  tx_valid = wrapped-IsValid;
  room = omega arith;
  off_in = omega arith;
  len_in = omega arith;
}

echo_loop_lem_example :
    let (r, t) = echo_loop 5 stream in
    (r ≡ ok tt) × ((moved : List ℕ) × Echoed stream t moved) × Stopped t
unfolding Ring.free Ring.len
echo_loop_lem_example = echo_loop_lem 5 stream stream-Staged (omega arith)

-- an LED that is its own level
abbrev lamp : Led
lamp = record { Pin = ℕ; set_low = λ p. 0; set_high = λ p. 1 }

abbrev side : TcpSide lamp
side = record { echo = stream; lamp = 1 }

tcp_wake_lem_example :
    let (q, u) = tcp_wake lamp side in (q ≡ ok tt) × Woken lamp established side u
unfolding State.reported_status as_tcp
tcp_wake_lem_example = tcp_wake_lem lamp side connection refl refl stream-Staged

abbrev datagrams : UdpEcho
datagrams = record {
  rings = record { rx = one; tx = empty };
  udp_buf = 9 ∷ 9 ∷ 9 ∷ 9 ∷ [];
  udp_pending = none;
}

datagrams-Ready : Ready datagrams (ping ∷ []) []
datagrams-Ready = record {
  rx_holds = one-Holds;
  tx_holds = empty-Holds;
  waiting = ((omega arith, omega arith, ping-Fits), tt);
  pending_in = tt;
}

udp_echo_loop_lem_example :
    let (r, t) = udp_echo_loop 2 datagrams in
    (r ≡ ok tt)
    × ((ds' : List Datagram) × (moved : List Datagram) × Bounced datagrams t
          (ping ∷ [])
          []
          ds'
          moved
        × Halted t ds')
udp_echo_loop_lem_example =
    udp_echo_loop_lem 2 datagrams (ping ∷ []) [] datagrams-Ready (omega arith)

empty_datagram_repeats_example :
    let s : UdpEcho = record datagrams { udp_pending = some (0, peer) } in
    let (r, t) = udp_echo_loop 2 s in
    (r ≡ ok tt)
    × (t.udp_pending ≡ some (0, peer))
    × (t.rings.rx ≡ one)
    × Holds t.rings.tx (empty_to peer ∷ [])
unfolding Ring.free Ring.len
empty_datagram_repeats_example =
    empty_datagram_repeats 1 (record datagrams { udp_pending = some (0, peer) }) [] peer
      (record { len_fits = omega arith; ip_fits = omega arith; port_fits = omega arith })
      empty-Holds (omega arith) refl

-- A HAL that gives the windows back as they went in.
abbrev idle_hal : Hal
idle_hal = record {
  Core = Unit {0};
  Pin = ℕ;
  Spi = Unit {0};
  RxChannel = Unit {0};
  TxChannel = Unit {0};
  Dma = Unit {0};
  Transfer = RxWindow × TxWindow;
  unmask_dma1_channel2 = λ c. c;
  delay = λ c n. c;
  set_low = λ p. 0;
  set_high = λ p. 1;
  with_rx_tx_dma = λ s r t. tt;
  clear_tc = λ d. d;
  listen = λ d. d;
  unlisten = λ d. d;
  read_write = λ d rx tx. (rx, tx);
  wait = λ t. (t, tt);
}

idle_hal-Documented : Documented idle_hal
idle_hal-Documented = record { tx_back = λ d rx tx. refl; rx_back = λ d rx tx. refl }

abbrev device : HalSpi idle_hal
device = record { core = tt; dma = tt; cs = 1; sysclk_hz = 24_000_000 }

abbrev buffers : DmaBuffers
buffers = record { rx = 0 ∷ 0 ∷ 7 ∷ []; tx = 1 ∷ 2 ∷ 3 ∷ []; len = 2 }

hal_device-KeepsBuffers_example : KeepsBuffers (hal_device idle_hal)
hal_device-KeepsBuffers_example = hal_device-KeepsBuffers idle_hal idle_hal-Documented

delay_cycles-bounds_example :
    (delay_cycles 100 24_000_000 * 1_000_000_000 ≤ 100 * 24_000_000)
    × (100 * 24_000_000 < (delay_cycles 100 24_000_000 + 1) * 1_000_000_000)
delay_cycles-bounds_example = delay_cycles-bounds 100 24_000_000 (omega arith) (omega arith)
