-- ===== src/Tcp/Fits.antt =====
-- wiznet-rs/src/tcp_socket.rs: a transfer that a tick starts fits the scratch buffers.
use wiznet_rs.Prelude.{ℕ, Bool, true, false, if◌then◌else◌, not, ◌&&◌, min, ◌==◌}
use wiznet_rs.Exec.{Result, ok, err, panic, out_of_fuel, would_block, other, gets}
use wiznet_rs.Safe.{Safe-gets, Safe-if, Safe-pure}
use wiznet_rs.Yields.{
  Given, Yields, Anyhow, Yields-pure, Yields-if, Yields-bind, Yields-known, Anyhow-pure,
  Anyhow-raise, Anyhow-if, Anyhow-bind, Anyhow-Yields,
}
use wiznet_rs.Spi.{SpiDmaDevice, KeepsBuffers}
use wiznet_rs.Transceiver.Block.{BlockAddress}
use wiznet_rs.Registers.Codes.{SocketStatusRegister}
use wiznet_rs.Registers.Ready.{
  get_tx_free_size-Safe, get_tx_write_pointer-Safe, start_write_tx_buffer-Safe,
  get_rx_received_size-Safe, get_rx_read_pointer-Safe, start_read_rx_buffer-Safe,
  get_interrupts-Safe, clear_interrupts-Safe, read_status-Safe,
}
use wiznet_rs.Ring
use wiznet_rs.Registers.Codes.{SocketCommand, disconnect}
use wiznet_rs.Registers.Access.{get_rx_received_size}
use wiznet_rs.Tick.{SocketStatus, BulkKind, BulkAction, started, on_trans, drain_into}
use wiznet_rs.Ring.Bounds.{IsValid}
use wiznet_rs.Tick.Ready.{Ready, Safe-on_trans, Safe-on_trans_tx, drain_into-IsValid}
use wiznet_rs.Tcp.State.{TcpTick, Run, command, set_status, time_out}
use wiznet_rs.Tcp.Transfer.{
  receive, transmit, unless_started, finish_close_wait, established_on, handle_established,
}
use wiznet_rs.Tcp.Edges.{stay, Inv}
use wiznet_rs.Tcp.Flows.{receive-Safe, transmit-Safe}
use wiznet_rs.Tcp.Close.{handle_close}
use wiznet_rs.Tick.Fits.{
  LenFits, ActionFits, start_read_rx_buffer-Yields, start_write_tx_buffer-Yields,
}
use wiznet_rs.Tcp.Run.{no_bulk, dispatch, store_error, run}

module _ (spi : SpiDmaDevice) (keeps : KeepsBuffers spi) (size : ℕ) (block : BlockAddress) where
  no_bulk-Anyhow : (m : Run spi (Unit {0})) → Anyhow (ActionFits size) (no_bulk spi block m)
  no_bulk-Anyhow m = Anyhow-bind m _ (λ _. Anyhow-pure BulkAction.none tt)

  finish_close_wait-Anyhow : Anyhow (ActionFits size) (finish_close_wait spi block)
  unfolding finish_close_wait
  finish_close_wait-Anyhow =
      Anyhow-bind (gets (λ s. Ring.len s.rings.tx == 0 && Ring.len s.rings.rx == 0)) _ (λ drained.
        Anyhow-if (not drained) _ _ (Anyhow-pure BulkAction.none tt) (
          Anyhow-bind (on_trans (get_rx_received_size spi block)) _ (λ left.
            Anyhow-if (not (left == 0)) _ _ (Anyhow-pure BulkAction.none tt)
              (no_bulk-Anyhow (command spi block disconnect SocketStatus.closing)))))

  module _ (q : Bool) (a : SocketStatus) where
    transmit-Yields : Yields (Inv spi keeps size block q a) (ActionFits size) (transmit spi block)
    unfolding transmit
    transmit-Yields = Yields-bind _ _ (Safe-gets _) (λ waiting.
        Yields-if (waiting == 0) _ _ (Yields-pure BulkAction.none tt) (
          Yields-bind _ _ (Safe-on_trans _ (get_tx_free_size-Safe spi keeps size block)) (λ free.
            let n = min waiting free in
            Yields-if (n == 0) _ _ (Yields-pure BulkAction.none tt) (
              Yields-bind _ _ (Safe-on_trans _ (get_tx_write_pointer-Safe spi keeps size block))
                (λ pointer.
                  Yields-known (λ _. LenFits size n) _ _
                    (Safe-on_trans_tx _ (
                      start_write_tx_buffer-Safe spi keeps size block IsValid pointer n drain_into
                        drain_into-IsValid))
                    (start_write_tx_buffer-Yields spi keeps size block pointer n drain_into)
                    (λ _ fit. Yields-pure (started BulkKind.transmit pointer n) fit))))))

    unless_started-Yields :
        (next : Run spi BulkAction) (action : BulkAction)
        → ActionFits size action
        → Yields (Inv spi keeps size block q a) (ActionFits size) next
        → Yields
            (Inv spi keeps size block q a)
            (ActionFits size)
            (unless_started spi block next action)
    unless_started-Yields next (started kind pointer len) fit k =
        Yields-pure (started kind pointer len) fit
    unless_started-Yields next BulkAction.none fit k = k

    receive-Yields : Yields (Inv spi keeps size block q a) (ActionFits size) (receive spi block)
    unfolding receive
    receive-Yields =
        Yields-bind _ _ (Safe-on_trans _ (get_rx_received_size-Safe spi keeps size block))
          (λ available. Yields-if (available == 0) _ _ (Yields-pure BulkAction.none tt) (
            Yields-bind _ _ (Safe-gets _) (λ to_read.
              Yields-if (to_read == 0) _ _ (Yields-pure BulkAction.none tt) (
                Yields-bind _ _ (Safe-on_trans _ (get_rx_read_pointer-Safe spi keeps size block))
                  (λ pointer.
                    Yields-known (λ _. LenFits size to_read) _ _
                      (Safe-on_trans _
                        (start_read_rx_buffer-Safe spi keeps size block pointer to_read))
                      (start_read_rx_buffer-Yields spi keeps size block pointer to_read)
                      (λ _ fit. Yields-pure (started BulkKind.receive pointer to_read) fit))))))

    established_on-Yields :
        (r : SocketStatusRegister)
        → Yields (Inv spi keeps size block q a) (ActionFits size) (established_on spi block r)
    unfolding established_on
    established_on-Yields SocketStatusRegister.established =
        Yields-known (ActionFits size) _ _ (receive-Safe spi keeps size block q a) receive-Yields
          (λ action fit. unless_started-Yields _ action fit transmit-Yields)
    established_on-Yields SocketStatusRegister.close_wait =
        Yields-known (ActionFits size) _ _ (receive-Safe spi keeps size block q a) receive-Yields
          (λ action fit. unless_started-Yields _ action fit (
            Yields-known (ActionFits size) _ _ (transmit-Safe spi keeps size block q a)
              transmit-Yields
              (λ action' fit'.
                unless_started-Yields _ action' fit' (Anyhow-Yields _ finish_close_wait-Anyhow))))
    established_on-Yields SocketStatusRegister.closed =
        Anyhow-Yields _ (no_bulk-Anyhow (set_status spi SocketStatus.closed))
    established_on-Yields _ = Anyhow-Yields _ (
        Anyhow-bind (command spi block SocketCommand.close SocketStatus.closing_due_to_error) _
          (λ _. Anyhow-raise _))

    handle_established-Yields :
        Yields (Inv spi keeps size block q a) (ActionFits size) (handle_established spi block)
    unfolding handle_established
    handle_established-Yields =
        Yields-bind _ _ (Safe-on_trans _ (get_interrupts-Safe spi keeps size block)) (λ interrupts.
          Yields-if interrupts.timeout _ _ (Anyhow-Yields _ (no_bulk-Anyhow (time_out spi block))) (
            Yields-bind _ _
              (Safe-if interrupts.discon _ _
                (Safe-on_trans _ (clear_interrupts-Safe spi keeps size block _)) (Safe-pure tt))
              (λ _.
                Yields-bind _ _ (Safe-on_trans _ (read_status-Safe spi keeps size block))
                  established_on-Yields)))

    dispatch-Yields :
        (b : SocketStatus)
        → Yields (Inv spi keeps size block q a) (ActionFits size) (dispatch spi block b)
    unfolding dispatch
    dispatch-Yields SocketStatus.established = handle_established-Yields
    dispatch-Yields SocketStatus.init = Anyhow-Yields _ (no_bulk-Anyhow _)
    dispatch-Yields SocketStatus.opening = Anyhow-Yields _ (no_bulk-Anyhow _)
    dispatch-Yields SocketStatus.connecting = Anyhow-Yields _ (no_bulk-Anyhow _)
    dispatch-Yields SocketStatus.listening = Anyhow-Yields _ (no_bulk-Anyhow _)
    dispatch-Yields SocketStatus.closing_due_to_error = Anyhow-Yields _ (no_bulk-Anyhow _)
    dispatch-Yields SocketStatus.closing_due_to_timeout = Anyhow-Yields _ (no_bulk-Anyhow _)
    dispatch-Yields SocketStatus.closing = Anyhow-Yields _ (no_bulk-Anyhow _)
    dispatch-Yields SocketStatus.timeout = Yields-pure BulkAction.none tt
    dispatch-Yields SocketStatus.closed = Yields-pure BulkAction.none tt
    dispatch-Yields SocketStatus.error = Yields-pure BulkAction.none tt

  store_error-Given :
      (m : Result BulkAction × TcpTick spi)
      → Given (ActionFits size) m.0
      → Given (ActionFits size) (store_error spi block m).0
  unfolding store_error
  store_error-Given (ok action, s) g = g
  store_error-Given (err would_block, s) g = tt
  store_error-Given (err (other e), s) g = tt
  store_error-Given (panic, s) g = tt
  store_error-Given (out_of_fuel, s) g = tt

  -- A tick on a ready bus and valid rings starts no transfer that the scratch buffers do not hold.
  pub tcp_run-Yields : Yields (Ready spi size) (ActionFits size) (run spi block)
  unfolding run
  tcp_run-Yields = record { at = λ s h. store_error-Given _ (chosen s.proto.close_requested s h) }
    where
      chosen :
          (q : Bool) (s : TcpTick spi)
          → Ready spi size s
          → Given
              (ActionFits size)
              ((if q
                then no_bulk spi block (handle_close spi block) s
                else dispatch spi block s.proto.status s)).0
      chosen true s h = (no_bulk-Anyhow (handle_close spi block)).given s
      chosen false s h =
          (dispatch-Yields false s.proto.status s.proto.status).at s
            (record { bus = h.bus; rx_valid = h.rx_valid; tx_valid = h.tx_valid; proto_ok = stay })
