-- ===== src/Tcp/Flows.antt =====
-- wiznet-rs/src/tcp_socket.rs: the data path and the close of a TCP socket, against the edges out
-- of its status.
use wiznet_rs.Prelude.{
  ℕ, suc, zero, ◌+◌, ◌≤◌, ◌≡◌, Bool, true, false, not, inl, inr, Bool-cases, min, take, arith, ltb,
  ◌==◌, ◌-◌, replicate,
}
use wiznet_rs.Exec.{Returned}
use wiznet_rs.Safe.{Safe, Safe-bind, Safe-pure, Safe-gets, Safe-if}
use wiznet_rs.Spi.{SpiDmaDevice, KeepsBuffers}
use wiznet_rs.Transceiver.Block.{BlockAddress}
use wiznet_rs.Ring
use wiznet_rs.Ring.Bounds.{IsValid}
use wiznet_rs.Ring.Read.{read_lem}
use wiznet_rs.Registers.Codes.{SocketCommand, SocketStatusRegister, disconnect}
use wiznet_rs.Registers.Access.{write_tx_buffer}
use wiznet_rs.Registers.Ready.{
  get_interrupts-Safe, clear_interrupts-Safe, send_sock_command-Safe, get_rx_received_size-Safe,
  get_rx_read_pointer-Safe, start_read_rx_buffer-Safe, get_tx_free_size-Safe,
  get_tx_write_pointer-Safe, set_tx_write_pointer-Safe, write_tx_buffer-Safe,
  start_write_tx_buffer-Safe, read_status-Safe,
}
use wiznet_rs.Tick.{
  SocketStatus, init, opening, connecting, established, listening, BulkKind, BulkAction, started,
  drain_into, on_trans,
}
use wiznet_rs.Tick.Status.{
  init_live, opening_live, connecting_live, listening_live, established_live,
}
use wiznet_rs.Tick.Ready.{Safe-on_trans, Safe-on_trans_tx, drain_into-IsValid}
use wiznet_rs.Tcp.State.{TcpTick, Run, u16_add}
use wiznet_rs.Tcp.Close.{tmp_len, flush_loop, flush_sync, close_from}
use wiznet_rs.Tcp.Transfer.{
  receive, transmit, unless_started, finish_close_wait, established_on, handle_established,
}
use wiznet_rs.Tcp.Edges.{
  close_requested, established_can_fail, unexpected_register, timed_out, peer_closed, dropped, Inv,
  Safe-set_status, Safe-command, Safe-unexpected, Safe-time_out,
}

module _ (spi : SpiDmaDevice) (keeps : KeepsBuffers spi) (size : ℕ) (block : BlockAddress) where
  module _ (q : Bool) (a : SocketStatus) where
    pub receive-Safe : Safe (Inv spi keeps size block q a) (receive spi block)
    unfolding receive
    receive-Safe =
        Safe-bind _ _ (Safe-on_trans _ (get_rx_received_size-Safe spi keeps size block))
          (λ available. Safe-if (available == 0) _ _ (Safe-pure BulkAction.none) (
            Safe-bind _ _ (Safe-gets _) (λ to_read.
              Safe-if (to_read == 0) _ _ (Safe-pure BulkAction.none) (
                Safe-bind _ _ (Safe-on_trans _ (get_rx_read_pointer-Safe spi keeps size block))
                  (λ pointer.
                    Safe-bind _ _
                      (Safe-on_trans _
                        (start_read_rx_buffer-Safe spi keeps size block pointer to_read))
                      (λ _. Safe-pure (started BulkKind.receive pointer to_read)))))))

    pub transmit-Safe : Safe (Inv spi keeps size block q a) (transmit spi block)
    unfolding transmit
    transmit-Safe = Safe-bind _ _ (Safe-gets _) (λ waiting.
        Safe-if (waiting == 0) _ _ (Safe-pure BulkAction.none) (
          Safe-bind _ _ (Safe-on_trans _ (get_tx_free_size-Safe spi keeps size block)) (λ free.
            Safe-if (min waiting free == 0) _ _ (Safe-pure BulkAction.none) (
              Safe-bind _ _ (Safe-on_trans _ (get_tx_write_pointer-Safe spi keeps size block))
                (λ pointer.
                  Safe-bind _ _
                    (Safe-on_trans_tx _ (
                      start_write_tx_buffer-Safe spi keeps size block IsValid pointer
                        (min waiting free) drain_into drain_into-IsValid))
                    (λ _. Safe-pure (started BulkKind.transmit pointer (min waiting free))))))))

    unless_started-Safe :
        (next : Run spi BulkAction) (action : BulkAction)
        → Safe (Inv spi keeps size block q a) next
        → Safe (Inv spi keeps size block q a) (unless_started spi block next action)
    unless_started-Safe next (started kind pointer len) k = Safe-pure (started kind pointer len)
    unless_started-Safe next BulkAction.none k = k

    -- The loop of `flush_sync` has enough rounds: each that goes on has staged a byte at least.
    flush_loop-Safe :
        (fuel to_send staged pointer : ℕ)
        → to_send ≤ fuel + staged
        → Safe (Inv spi keeps size block q a) (flush_loop spi block fuel to_send staged pointer)
    unfolding flush_loop
    flush_loop-Safe zero to_send staged pointer h = record { at = λ s i. rw (over) (tt, i) }
      where
        over : ltb staged to_send ≡ false
        over = ground arith
    flush_loop-Safe (suc fuel) to_send staged pointer h = record {
      at = step (flush_loop-Safe fuel to_send);
    }
      where
        step :
            ((staged' pointer' : ℕ)
              → to_send ≤ fuel + staged'
              → Safe
                  (Inv spi keeps size block q a)
                  (flush_loop spi block fuel to_send staged' pointer'))
            → (s : TcpTick spi) → Inv spi keeps size block q a s
            → let m = flush_loop spi block (suc fuel) to_send staged pointer s in
              Returned m.0 × Inv spi keeps size block q a m.1
        step again s i =
            let r = Ring.read s.rings.tx (replicate (min tmp_len (to_send - staged)) 0) in
            let s' : TcpTick spi = record s { rings = record s.rings { tx = r.2 } } in
            let i' : Inv spi keeps size block q a s' = record {
              bus = i.bus;
              rx_valid = i.rx_valid;
              tx_valid =
                  (read_lem s.rings.tx i.tx_valid (replicate (min tmp_len (to_send - staged)) 0)).3;
              proto_ok = i.proto_ok;
            } in
            elim (Bool-cases (ltb staged to_send)) [
              | inr over ↦ rw over (tt, i)
              | inl more ↦ rw more (elim (Bool-cases (r.0 == 0)) [
                | inl none ↦ rw none (tt, i')
                | inr some ↦ rw some (
                    (Safe-bind (on_trans (write_tx_buffer spi block pointer (take r.0 r.1))) _
                        (Safe-on_trans _
                          (write_tx_buffer-Safe spi keeps size block pointer (take r.0 r.1)))
                        (λ _. again (staged + r.0) (u16_add pointer r.0) (ground arith))).at
                      s' i')
              ])
            ]

    pub flush_sync-Safe : Safe (Inv spi keeps size block q a) (flush_sync spi block)
    unfolding flush_sync
    flush_sync-Safe = Safe-bind _ _ (Safe-gets _) (λ waiting.
        Safe-if (waiting == 0) _ _ (Safe-pure tt) (
          Safe-bind _ _ (Safe-on_trans _ (get_tx_free_size-Safe spi keeps size block)) (λ free.
            Safe-if (min waiting free == 0) _ _ (Safe-pure tt) (
              Safe-bind _ _ (Safe-on_trans _ (get_tx_write_pointer-Safe spi keeps size block))
                (λ pointer.
                  Safe-bind _ _
                    (flush_loop-Safe (min waiting free) (min waiting free) 0 pointer (omega arith))
                    (λ end.
                      Safe-bind _ _
                        (Safe-on_trans _ (set_tx_write_pointer-Safe spi keeps size block end))
                        (λ _.
                          Safe-on_trans _
                            (send_sock_command-Safe spi keeps size block SocketCommand.send))))))))

  finish_close_wait-Safe :
      Safe (Inv spi keeps size block false established) (finish_close_wait spi block)
  unfolding finish_close_wait
  finish_close_wait-Safe = Safe-bind _ _ (Safe-gets _) (λ drained.
      Safe-if (not drained) _ _ (Safe-pure BulkAction.none) (
        Safe-bind _ _ (Safe-on_trans _ (get_rx_received_size-Safe spi keeps size block)) (λ left.
          Safe-if (not (left == 0)) _ _ (Safe-pure BulkAction.none) (
            Safe-bind _ _ (Safe-command spi keeps size block _ _ disconnect _ peer_closed)
              (λ _. Safe-pure BulkAction.none)))))

  established_on-Safe :
      (r : SocketStatusRegister)
      → Safe (Inv spi keeps size block false established) (established_on spi block r)
  unfolding established_on
  established_on-Safe SocketStatusRegister.established =
      Safe-bind _ _ (receive-Safe _ _)
        (λ action. unless_started-Safe _ _ _ action (transmit-Safe _ _))
  established_on-Safe SocketStatusRegister.close_wait = Safe-bind _ _ (receive-Safe _ _) (λ action.
      unless_started-Safe _ _ _ action (
        Safe-bind _ _ (transmit-Safe _ _)
          (λ action'. unless_started-Safe _ _ _ action' finish_close_wait-Safe)))
  established_on-Safe SocketStatusRegister.closed =
      Safe-bind _ _ (Safe-set_status spi keeps size block _ _ _ dropped)
        (λ _. Safe-pure BulkAction.none)
  established_on-Safe _ =
      Safe-unexpected spi keeps size block _ _ (unexpected_register established_can_fail)

  pub handle_established-Safe :
      Safe (Inv spi keeps size block false established) (handle_established spi block)
  unfolding handle_established
  handle_established-Safe =
      Safe-bind _ _ (Safe-on_trans _ (get_interrupts-Safe spi keeps size block)) (λ interrupts.
        Safe-if interrupts.timeout _ _
          (Safe-bind _ _ (Safe-time_out spi keeps size block _ _ timed_out)
            (λ _. Safe-pure BulkAction.none))
          (Safe-bind _ _
            (Safe-if interrupts.discon _ _
              (Safe-on_trans _ (clear_interrupts-Safe spi keeps size block _)) (Safe-pure tt))
            (λ _.
              Safe-bind _ _ (Safe-on_trans _ (read_status-Safe spi keeps size block))
                established_on-Safe)))

  pub close_from-Safe :
      (a : SocketStatus) → Safe (Inv spi keeps size block true a) (close_from spi block a)
  unfolding close_from
  close_from-Safe established =
      Safe-bind _ _ (flush_sync-Safe _ _)
        (λ _. Safe-command spi keeps size block _ _ disconnect _ (close_requested established_live))
  close_from-Safe init =
      Safe-command spi keeps size block _ _ SocketCommand.close _ (close_requested init_live)
  close_from-Safe opening =
      Safe-command spi keeps size block _ _ SocketCommand.close _ (close_requested opening_live)
  close_from-Safe connecting =
      Safe-command spi keeps size block _ _ SocketCommand.close _ (close_requested connecting_live)
  close_from-Safe listening =
      Safe-command spi keeps size block _ _ SocketCommand.close _ (close_requested listening_live)
  close_from-Safe _ = Safe-pure tt
