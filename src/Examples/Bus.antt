-- ===== src/Examples/Bus.antt =====
-- A transport that gives back the buffers as they are, and the transactions on it.
use wiznet_rs.Prelude.{◌≡◌, refl, sym, ap, true, false, inl, inr, List, [], ◌∷◌, arith, length}
use wiznet_rs.Exec.{Returned, would_block, err}
use wiznet_rs.Spi.{DmaBuffers, SpiDmaDevice, KeepsBuffers}
use wiznet_rs.Transceiver.Block.{Address, block_bits, create_header, socket1_register}
use wiznet_rs.Transceiver.Header.{decode_header, decode-create_header}
use wiznet_rs.Transceiver.Batch.{Operation, read, write, delay_ns}
use wiznet_rs.Transceiver.Sound.{IsSized}
use wiznet_rs.Transceiver.Total.{Ended, exec_transaction-Ended}
use wiznet_rs.Transceiver.Execute.{Transceiver, idle, in_flight, exec_transaction, transaction}
use wiznet_rs.Transceiver.Async.{abort, start_write, start_read}
use wiznet_rs.Transceiver.Ready.{IsReady, transaction_lem}
use wiznet_rs.Transceiver.Flight.{abort-IsIdle, IsIdle, in_flight_refuses}

abbrev pub still : SpiDmaDevice
still = record {
  Device = Unit {0};
  Transaction = DmaBuffers;
  transceive = λ d b c. inl b;
  wait = λ t. (tt, t);
  delay_ns = λ d ns. d;
}

pub still-KeepsBuffers : KeepsBuffers still
still-KeepsBuffers = record {
  done = λ d b c t e. (
    ap (λ o. elim o [ inl x ↦ length x.rx | inr x ↦ 0 ]) (sym e),
    ap (λ o. elim o [ inl x ↦ length x.tx | inr x ↦ 0 ]) (sym e),
  );
  refused = λ d d' b b' c e. (
    ap (λ o. elim o [ inl x ↦ length x.rx | inr (y, x) ↦ length x.rx ]) (sym e),
    ap (λ o. elim o [ inl x ↦ length x.tx | inr (y, x) ↦ length x.tx ]) (sym e),
  );
}

-- a chip whose answer has 0x17 behind the header
abbrev pub scratch : DmaBuffers
scratch = record {
  rx = 0 ∷ 0 ∷ 0 ∷ 0x17 ∷ 0 ∷ 0 ∷ 0 ∷ 0 ∷ [];
  tx = 0 ∷ 0 ∷ 0 ∷ 0 ∷ 0 ∷ 0 ∷ 0 ∷ 0 ∷ [];
  len = 0;
}

abbrev pub bus : Transceiver still
bus = record { cell = idle tt scratch; busy = false }

pub scratch-IsSized : IsSized 8 scratch
scratch-IsSized = record { rx_size = refl; tx_size = refl }

pub bus-IsReady : IsReady still 8 bus
bus-IsReady = record { unlocked = refl; settled = scratch-IsSized }

abbrev status_register : Address
status_register = record { address = 0x0030; block = socket1_register }

abbrev script : List Operation
script =
    write (create_header status_register false) ∷ read (0 ∷ []) ∷ delay_ns 5 ∷ write (1 ∷ []) ∷ []

exec_transaction-Ended_example :
    Ended still still-KeepsBuffers 8 (exec_transaction still 4 tt scratch script)
exec_transaction-Ended_example =
    exec_transaction-Ended still still-KeepsBuffers 8 4 tt scratch script (omega arith)
      scratch-IsSized (tt, (tt, (tt, (tt, tt))))

transaction_lem_example :
    Returned (transaction still script bus).0 × IsReady still 8 (transaction still script bus).1
transaction_lem_example =
    transaction_lem still still-KeepsBuffers 8 script bus (tt, (tt, (tt, (tt, tt)))) bus-IsReady

in_flight_refuses_example :
    let t : Transceiver still = record { cell = in_flight scratch; busy = false } in
    (transaction still script t ≡ (err would_block, t))
    × (start_read still status_register 2 t ≡ (err would_block, t))
    × (start_write still status_register 2 (λ buf e. (buf, e)) (t, scratch)
        ≡ (err would_block, (t, scratch)))
in_flight_refuses_example =
    in_flight_refuses still scratch false script status_register 2 (λ buf e. (buf, e)) scratch

abort-IsIdle_example :
    let t : Transceiver still = record { cell = in_flight scratch; busy = false } in
    IsIdle still (abort still t).cell × IsReady still 8 (abort still t)
abort-IsIdle_example =
    abort-IsIdle still 8 (record { cell = in_flight scratch; busy = false })
      (record { unlocked = refl; settled = scratch-IsSized })

decode-create_header_example :
    decode_header (create_header status_register true)
    ≡ record { address = 0x0030; block = block_bits socket1_register; write = true; mode = 0 }
decode-create_header_example = decode-create_header status_register true (omega arith)
