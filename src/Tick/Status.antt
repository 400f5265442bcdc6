-- ===== src/Tick/Status.antt =====
-- wiznet-rs/src/socket.rs: the statuses of a socket, sorted.
use wiznet_rs.Tick.{
  SocketStatus, init, opening, connecting, listening, established, closed, error, timeout,
}

-- The statuses in which a close is still to be done.
pub data IsLive : SocketStatus → Type 0 where
  init_live : IsLive init
  opening_live : IsLive opening
  connecting_live : IsLive connecting
  listening_live : IsLive listening
  established_live : IsLive established

-- The statuses in which a socket has come to its end, and the others.
abbrev pub Ended : SocketStatus → Type 0
Ended closed = Unit
Ended error = Unit
Ended timeout = Unit
Ended _ = ⊥

abbrev pub Ongoing : SocketStatus → Type 0
Ongoing closed = ⊥
Ongoing error = ⊥
Ongoing timeout = ⊥
Ongoing _ = Unit
