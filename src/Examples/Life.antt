-- ===== src/Examples/Life.antt =====
-- A driver that was made, opened a socket, was serviced and had a completion.
use wiznet_rs.Prelude.{◌≡◌, true, false, [], ◌∷◌, arith}
use wiznet_rs.Exec.{ok, Returned}
use wiznet_rs.Transceiver.Execute.{idle}
use wiznet_rs.Chip.State.{OutputPin, W6100}
use wiznet_rs.Chip.Reset as Reset
use wiznet_rs.Chip.Reset.{assembled, reset}
use wiznet_rs.Chip.Service.{service, dma_complete}
use wiznet_rs.Chip.Open.{open_udp}
use wiznet_rs.Chip.Whole.Invariant.{ChipReady}
use wiznet_rs.Chip.Life.Open.{Storage}
use wiznet_rs.Chip.Life.Steps.{
  serviced, completed, opened_udp, Reached, made, next, driver_lem, Started, new_lem,
}
use wiznet_rs.Examples.Bus.{scratch, scratch-IsSized, still, still-KeepsBuffers}
use wiznet_rs.Examples.Rings.{four_bytes, four-divides}

-- a pin that is always set
abbrev reset_pin : OutputPin
reset_pin = record { Pin = Unit {0}; set_low = λ p. (true, p); set_high = λ p. (true, p) }

abbrev fresh : W6100 still reset_pin
fresh = assembled still reset_pin (record { cell = idle tt scratch; busy = false }) tt (2 ∷ [])

four-Storage : Storage four_bytes
four-Storage = record { positive = omega arith; small = omega arith; aligned = four-divides }

abbrev opened : W6100 still reset_pin
opened = (open_udp still reset_pin 5556 four_bytes four_bytes fresh).1

abbrev tended : W6100 still reset_pin
tended = (service still reset_pin opened).1

abbrev in_use : W6100 still reset_pin
in_use = (dma_complete still reset_pin tended).1

in_use-Reached : Reached still reset_pin 8 in_use
in_use-Reached =
    next tended in_use
      (next opened tended
        (next fresh opened (made tt tt scratch (2 ∷ []) scratch-IsSized)
          (opened_udp 5556 four_bytes four_bytes four-Storage four-Storage))
        serviced)
      completed

driver_lem_example :
    ChipReady still reset_pin 8 8 in_use
    × Returned (service still reset_pin in_use).0
    × ((dma_complete still reset_pin in_use).0 ≡ ok tt)
    × Returned (reset still reset_pin in_use).0
driver_lem_example = driver_lem still reset_pin still-KeepsBuffers 8 in_use in_use-Reached

new_lem_example :
    Started still reset_pin still-KeepsBuffers 8 fresh
      (Reset.new still reset_pin tt tt scratch (2 ∷ []))
new_lem_example =
    new_lem still reset_pin still-KeepsBuffers 8 tt tt scratch (2 ∷ []) scratch-IsSized
