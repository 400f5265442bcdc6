-- ===== src/Examples/Sockets.antt =====
-- A connected TCP socket with bytes to send.
use wiznet_rs.Prelude.{[], ◌∷◌, arith, refl, true, false, none}
use wiznet_rs.Exec.{Quiet}
use wiznet_rs.Transceiver.Block.{
  BlockAddress, socket1_register, socket1_tx_buffer, socket1_rx_buffer,
}
use wiznet_rs.Tick.{established}
use wiznet_rs.Tick.Ready.{Ready}
use wiznet_rs.Tcp.State.{TcpTick, connect_to}
use wiznet_rs.Udp.State.{UdpTick}
use wiznet_rs.Udp.Edges as Edges
use wiznet_rs.Udp.Run as Run
use wiznet_rs.Udp.Sound as Sound
use wiznet_rs.Tcp.Edges.{Edge}
use wiznet_rs.Tcp.Run.{run}
use wiznet_rs.Tcp.Sound.{tcp_run_lem}
use wiznet_rs.Examples.Bus.{still, still-KeepsBuffers, bus, bus-IsReady}
use wiznet_rs.Examples.Rings.{four_bytes, four-divides}

abbrev pub block : BlockAddress
block = record { reg = socket1_register; tx = socket1_tx_buffer; rx = socket1_rx_buffer }

-- A close was asked for while two bytes wait.
abbrev pub closing_tick : TcpTick still
closing_tick = record {
  trans = bus;
  rings = record {
    rx = record { buf = four_bytes; cap = 4; head = 0; tail = 0; frames_in = 0; frames_out = 0 };
    tx = record {
      buf = 8 ∷ 9 ∷ 0 ∷ 0 ∷ [];
      cap = 4;
      head = 0;
      tail = 2;
      frames_in = 0;
      frames_out = 0;
    };
  };
  proto = record {
    mode = connect_to 0xC0A8_0001 80 5000;
    status = established;
    pending_error = none;
    close_requested = true;
  };
}

pub closing_tick-Ready : Ready still 8 closing_tick
closing_tick-Ready = record {
  bus = bus-IsReady;
  rx_valid = record {
    sized = refl;
    positive = omega arith;
    small = omega arith;
    aligned = four-divides;
    head_in = omega arith;
    tail_in = omega arith;
    len_in = omega arith;
  };
  tx_valid = record {
    sized = refl;
    positive = omega arith;
    small = omega arith;
    aligned = four-divides;
    head_in = omega arith;
    tail_in = omega arith;
    len_in = omega arith;
  };
  proto_ok = tt;
}

tcp_run_lem_example :
    let (r, s') = run still block closing_tick in
    Quiet r × Ready still 8 s' × Edge true established s'.proto.status
tcp_run_lem_example = tcp_run_lem still still-KeepsBuffers 8 block closing_tick closing_tick-Ready

-- An open UDP socket with nothing to send.
abbrev datagram_tick : UdpTick still
datagram_tick = record {
  trans = bus;
  rings = closing_tick.rings;
  proto = record {
    src_port = 53;
    status = established;
    pending_error = none;
    close_requested = false;
  };
}

datagram_tick-Ready : Ready still 8 datagram_tick
datagram_tick-Ready =
    let k = closing_tick-Ready in
    record { bus = k.bus; rx_valid = k.rx_valid; tx_valid = k.tx_valid; proto_ok = tt }

udp_run_lem_example :
    let (r, s') = Run.run still block datagram_tick in
    Quiet r × Ready still 8 s' × Edges.Edge false established s'.proto.status
udp_run_lem_example =
    Sound.udp_run_lem still still-KeepsBuffers 8 block datagram_tick datagram_tick-Ready
