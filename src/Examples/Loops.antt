-- ===== src/Examples/Loops.antt =====
-- The DMA self-test on a wire from the output to the input.
use wiznet_rs.Prelude.{
  ℕ, ◌%◌, ◌^◌, ◌≡◌, ◌↔◌, refl, [], ◌∷◌, ◌++◌, arith, some, none, false, take, drop, replicate,
}
use wiznet_rs.Exec.{ok}
use wiznet_rs.Loopback.Check.{default, fill_pattern, fill_sentinel, verify, sentinel}
use wiznet_rs.Loopback.Run.{SliceN, shown, Hal, Bench, iteration}
use wiznet_rs.Loopback.Verdict.{Agree, Verdict, verify_lem}
use wiznet_rs.Loopback.Pattern.{silent_transfer}
use wiznet_rs.Loopback.Wired.{Wired, Whole, iteration_lem}

abbrev wire : Hal
wire = record {
  Core = Unit {0};
  Dma = Unit {0};
  Transfer = SliceN × SliceN;
  Pin = ℕ;
  clear_rx_tcif = λ c. c;
  delay = λ c n. c;
  set_low = λ p. 0;
  set_high = λ p. 1;
  read_write = λ d rx tx. (record rx { buf = take tx.n tx.buf ++ drop rx.n rx.buf }, tx);
  wait = λ t. (t, tt);
}

wire-Wired : Wired wire
unfolding shown
wire-Wired = record { tx_back = λ d rx tx. refl; looped = λ d rx tx e f g. refl }

abbrev bench : Bench wire
bench = record {
  shared = record { core = tt; done = false; inflight = none; result = none };
  dma = some tt;
  rx = some (replicate 512 0);
  tx = some (replicate 512 0);
  report = default;
  led = 1;
}

iteration_lem_example :
    let (r, c) = iteration wire 16_000_000 bench in
    (r ≡ ok tt) × Whole c.dma c.rx c.tx × (c.report ≡ record default { iterations = 1 })
iteration_lem_example = iteration_lem wire wire-Wired 16_000_000 bench (refl, refl)

verify_lem_example :
    Verdict 3
      (1 ∷ 2 ∷ 3 ∷ [])
      (1 ∷ 9 ∷ 3 ∷ [])
      default
      (verify 3 (1 ∷ 2 ∷ 3 ∷ []) (1 ∷ 9 ∷ 3 ∷ []) default)
verify_lem_example = verify_lem 3 (1 ∷ 2 ∷ 3 ∷ []) (1 ∷ 9 ∷ 3 ∷ []) default

silent_transfer_example :
    Agree 1 (fill_pattern 1 0 0xFF (0 ∷ [])) (fill_sentinel 1 (0 ∷ []))
    ↔ ((◌≡◌ {A = ℕ} 1 1) × (0xFF % 2 ^ 8 ≡ sentinel))
silent_transfer_example = silent_transfer 1 0xFF (0 ∷ []) (0 ∷ []) (omega arith) (omega arith)
