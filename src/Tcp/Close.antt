-- ===== src/Tcp/Close.antt =====
-- wiznet-rs/src/tcp_socket.rs: `flush_sync` and `handle_close`.
use wiznet_rs.Prelude.{
  ℕ, zero, suc, ◌+◌, ◌-◌, min, false, take, ltb, ◌==◌, if◌then◌else◌, replicate,
}
use wiznet_rs.Exec.{ok, out_of_fuel, pure, gets, ◌>>=◌, ◌>>◌}
use wiznet_rs.Spi.{SpiDmaDevice}
use wiznet_rs.Transceiver.Block.{BlockAddress}
use wiznet_rs.Ring
use wiznet_rs.Registers.Codes.{disconnect, close, send}
use wiznet_rs.Registers.Access.{
  send_sock_command, get_tx_free_size, get_tx_write_pointer, set_tx_write_pointer, write_tx_buffer,
}
use wiznet_rs.Tick.{SocketStatus, on_trans}
use wiznet_rs.Tcp.State.{u16_add, TcpTick, Run, command}

-- what `flush_sync` moves at once
abbrev pub tmp_len : ℕ
tmp_len = 64

module _ (spi : SpiDmaDevice) (block : BlockAddress) where
  -- The `while` of `flush_sync`, which gives the pointer that it reaches. Of `tmp` only what was
  -- just read into it is used.
  unfoldable pub flush_loop : (fuel to_send staged pointer : ℕ) → Run spi ℕ
  flush_loop zero to_send staged pointer s =
      if ltb staged to_send then (out_of_fuel, s) else (ok pointer, s)
  flush_loop (suc fuel) to_send staged pointer s =
      let (got, tmp, tx) = Ring.read s.rings.tx (replicate (min tmp_len (to_send - staged)) 0) in
      let s' : TcpTick spi = record s { rings = record s.rings { tx = tx } } in
      let rest =
        λ (u : TcpTick spi). flush_loop fuel to_send (staged + got) (u16_add pointer got) u in
      if ltb staged to_send
      then if got == 0
        then (ok pointer, s')
        else (on_trans (write_tx_buffer spi block pointer (take got tmp)) >>= λ _. rest) s'
      else (ok pointer, s)

  unfoldable pub flush_sync : Run spi (Unit {0})
  unfolding flush_loop
  flush_sync = do
    waiting ← gets (λ s. Ring.len s.rings.tx)
    if waiting == 0 then pure tt else do
      free ← on_trans (get_tx_free_size spi block)
      let to_send = min waiting free
      if to_send == 0 then pure tt else do
        pointer ← on_trans (get_tx_write_pointer spi block)
        end ← flush_loop to_send to_send 0 pointer
        on_trans (set_tx_write_pointer spi block end)
        on_trans (send_sock_command spi block send)

  -- `handle_close` on the status that the close finds
  unfoldable pub close_from : SocketStatus → Run spi (Unit {0})
  unfolding flush_sync
  close_from SocketStatus.established = do
    flush_sync
    command spi block disconnect SocketStatus.closing
  close_from SocketStatus.init = command spi block close SocketStatus.closing
  close_from SocketStatus.opening = command spi block close SocketStatus.closing
  close_from SocketStatus.connecting = command spi block close SocketStatus.closing
  close_from SocketStatus.listening = command spi block close SocketStatus.closing
  close_from _ = pure tt

  unfoldable pub handle_close : Run spi (Unit {0})
  unfolding close_from
  handle_close s =
      close_from s.proto.status (record s { proto = record s.proto { close_requested = false } })
