-- ===== src/Tcp/Sound.antt =====
-- wiznet-rs/src/tcp_socket.rs: `run`, one tick of a TCP socket, whatever the chip and the bus do.
use wiznet_rs.Prelude.{if◌then◌else◌, subst, sym, ℕ, ◌≡◌, refl, Bool, true, false}
use wiznet_rs.Exec.{ok, out_of_fuel, Result, Returned, pure}
use wiznet_rs.Safe.{Safe, Safe-bind, Safe-pure}
use wiznet_rs.Spi.{SpiDmaDevice, KeepsBuffers}
use wiznet_rs.Transceiver.Block.{BlockAddress}
use wiznet_rs.Registers.Codes.{SocketStatusRegister}
use wiznet_rs.Registers.Access.{read_status}
use wiznet_rs.Registers.Ready.{read_status-Safe}
use wiznet_rs.Tick.{
  SocketStatus, init, opening, connecting, established, listening, closing_due_to_error,
  closing_due_to_timeout, closing, BulkAction,
}
use wiznet_rs.Tick.Ready.{Ready, Safe-on_trans}
use wiznet_rs.Tcp.State.{TcpTick, Run, set_status}
use wiznet_rs.Tcp.Close.{handle_close, close_from}
use wiznet_rs.Tcp.Edges.{stay, close_done, error_done, timeout_done, Edge, Inv, Safe-set_status}
use wiznet_rs.Exec.{Quiet, continue, would_block, err, other, panic}
use wiznet_rs.Tick.{timeout, error, closed}
use wiznet_rs.Tcp.Handlers.{
  handle_init-Safe, handle_opening-Safe, handle_connecting-Safe, handle_listening-Safe,
}
use wiznet_rs.Tcp.Flows.{handle_established-Safe, close_from-Safe}
use wiznet_rs.Tcp.Run.{closed_from, closing_on, handle_closing, no_bulk, dispatch, store_error, run}

module _ (spi : SpiDmaDevice) (keeps : KeepsBuffers spi) (size : ℕ) (block : BlockAddress) where
  -- a tick's result and the state after it, from status `a`
  abbrev Ticked : {A : Type 0} → Bool → SocketStatus → Result A × TcpTick spi → Type 0
  Ticked q a (r, s) = Returned r × Inv spi keeps size block q a s

  begin :
      (q : Bool) (a : SocketStatus) (s : TcpTick spi)
      → s.proto.status ≡ a
      → Ready spi size s
      → Inv spi keeps size block q a s
  begin q a s e h = record {
    bus = h.bus;
    rx_valid = h.rx_valid;
    tx_valid = h.tx_valid;
    proto_ok = subst (λ b. Edge q a b) (sym e) stay;
  }

  no_bulk-Safe :
      {q : Bool} {a : SocketStatus} (m : Run spi (Unit {0}))
      → Safe (Inv spi keeps size block q a) m
      → Safe (Inv spi keeps size block q a) (no_bulk spi block m)
  no_bulk-Safe m k = Safe-bind _ _ k (λ _. Safe-pure BulkAction.none)

  closing_on-lem :
      (a b : SocketStatus)
      → Edge false a b
      → ((s : TcpTick spi)
          → s.proto.status ≡ a
          → closed_from spi block s.proto.status s ≡ set_status spi b s)
      → (r : SocketStatusRegister) (s : TcpTick spi) → s.proto.status ≡ a
      → Inv spi keeps size block false a s
      → Ticked false a (closing_on spi block r s)
  closing_on-lem a b e k SocketStatusRegister.closed s same i =
      rw (k s same) ((Safe-set_status spi keeps size block false a b e).at s i)
  closing_on-lem a b e k _ s same i = (tt, i)

  mapped :
      {q : Bool} {a : SocketStatus} (r : Result (Unit {0})) (s : TcpTick spi)
      → Ticked q a (r, s)
      → Ticked {A = BulkAction} q a (continue r (λ _. pure BulkAction.none) s)
  mapped (ok u) s h = h
  mapped (err e) s h = h
  mapped panic s h = absurd h.0
  mapped out_of_fuel s h = absurd h.0

  closing_result :
      (a b : SocketStatus)
      → Edge false a b
      → ((s : TcpTick spi)
          → s.proto.status ≡ a
          → closed_from spi block s.proto.status s ≡ set_status spi b s)
      → (r : Result SocketStatusRegister) (s : TcpTick spi) → Returned r
      → Inv spi keeps size block false a s
      → s.proto.status ≡ a
      → Ticked false a (continue r (closing_on spi block) s)
  closing_result a b e k (ok v) s back i same = closing_on-lem a b e k v s same i
  closing_result a b e k (err x) s back i same = (tt, i)
  closing_result a b e k panic s back i same = absurd back
  closing_result a b e k out_of_fuel s back i same = absurd back

  -- A close in progress finds itself in one of the three closing statuses, so `handle_closing` does
  -- not reach its panic.
  closing_after :
      (a b : SocketStatus)
      → Edge false a b
      → ((s : TcpTick spi)
          → s.proto.status ≡ a
          → closed_from spi block s.proto.status s ≡ set_status spi b s)
      → (s : TcpTick spi) → s.proto.status ≡ a
      → Ready spi size s
      → Ticked false a (no_bulk spi block (handle_closing spi block) s)
  unfolding handle_closing
  closing_after a b e k s same h =
      let (back, i) =
        (Safe-on_trans (read_status spi block) (read_status-Safe spi keeps size block)).at s
          (begin false a s same h) in
      mapped _ _ (closing_result a b e k _ _ back i same)

  handled :
      (a : SocketStatus) (m : Run spi BulkAction)
      → Safe (Inv spi keeps size block false a) m
      → (s : TcpTick spi) → s.proto.status ≡ a
      → Ready spi size s
      → Ticked false a (m s)
  handled a m k s same h = k.at s (begin false a s same h)

  dispatch-lem :
      (a : SocketStatus) (s : TcpTick spi)
      → s.proto.status ≡ a
      → Ready spi size s
      → Ticked false a (dispatch spi block a s)
  unfolding dispatch closed_from
  dispatch-lem init = handled _ _ (no_bulk-Safe _ (handle_init-Safe spi keeps size block))
  dispatch-lem opening = handled _ _ (no_bulk-Safe _ (handle_opening-Safe spi keeps size block))
  dispatch-lem connecting =
      handled _ _ (no_bulk-Safe _ (handle_connecting-Safe spi keeps size block))
  dispatch-lem established = handled _ _ (handle_established-Safe spi keeps size block)
  dispatch-lem listening = handled _ _ (no_bulk-Safe _ (handle_listening-Safe spi keeps size block))
  dispatch-lem closing_due_to_error = closing_after _ error error_done (λ s same. rw same refl)
  dispatch-lem closing_due_to_timeout =
      closing_after _ timeout timeout_done (λ s same. rw same refl)
  dispatch-lem closing = closing_after _ closed close_done (λ s same. rw same refl)
  dispatch-lem timeout = handled _ _ (Safe-pure BulkAction.none)
  dispatch-lem error = handled _ _ (Safe-pure BulkAction.none)
  dispatch-lem closed = handled _ _ (Safe-pure BulkAction.none)

  close-lem :
      (s : TcpTick spi)
      → Ready spi size s
      → Ticked true s.proto.status (no_bulk spi block (handle_close spi block) s)
  unfolding handle_close
  close-lem s h =
      let s' : TcpTick spi = record s { proto = record s.proto { close_requested = false } } in
      (no_bulk-Safe (close_from spi block s.proto.status)
          (close_from-Safe spi keeps size block s.proto.status)).at
        s'
        (begin true s.proto.status s' refl
          (record { bus = h.bus; rx_valid = h.rx_valid; tx_valid = h.tx_valid; proto_ok = tt }))

  stored :
      {q : Bool} {a : SocketStatus} (m : Result BulkAction × TcpTick spi)
      → Ticked q a m
      → let (r, s) = store_error spi block m in Quiet r × Inv spi keeps size block q a s
  unfolding store_error
  stored (ok action, s) h = h
  stored (err would_block, s) h = h
  stored (err (other e), s) h = (
    tt,
    record {
      bus = h.1.bus;
      rx_valid = h.1.rx_valid;
      tx_valid = h.1.tx_valid;
      proto_ok = h.1.proto_ok;
    },
  )
  stored (panic, s) h = absurd h.0
  stored (out_of_fuel, s) h = absurd h.0

  chosen :
      (q : Bool) (s : TcpTick spi)
      → Ready spi size s
      → Ticked q s.proto.status (
          if q
          then no_bulk spi block (handle_close spi block) s
          else dispatch spi block s.proto.status s)
  chosen true s h = close-lem s h
  chosen false s h = dispatch-lem s.proto.status s refl h

  -- On a ready bus and valid rings, whatever the transport answers, one tick of a TCP socket comes
  -- back without a panic and with no error but `WouldBlock`, leaves the bus ready and the rings
  -- valid, and changes the status along an edge of the state machine or not at all.
  pub tcp_run_lem :
      (s : TcpTick spi)
      → Ready spi size s
      → let (r, s') = run spi block s in
        Quiet r × Ready spi size s' × Edge s.proto.close_requested s.proto.status s'.proto.status
  unfolding run
  tcp_run_lem s h = outcome _ (chosen s.proto.close_requested s h)
    where
      outcome :
          {q : Bool} (m : Result BulkAction × TcpTick spi)
          → Ticked q s.proto.status m
          → let (r, s') = store_error spi block m in
            Quiet r × Ready spi size s' × Edge q s.proto.status s'.proto.status
      outcome m k =
          let (quiet, i) = stored m k in
          (
            quiet,
            record { bus = i.bus; rx_valid = i.rx_valid; tx_valid = i.tx_valid; proto_ok = tt },
            i.proto_ok,
          )
