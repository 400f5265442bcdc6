-- ===== src/Examples/Races.antt =====
-- A write that a read interrupts, round the end of the storage and of the counters.
use wiznet_rs.Prelude.{◌+◌, ◌%◌, ◌≡◌, ◌≢◌, [], ◌∷◌, ◌++◌, arith}
use wiznet_rs.Ring.Bounds.{IsValid, contents}
use wiznet_rs.Ring.Concurrent.Steps.{
  Put, Get, System, Step, Reach, quiet, start, later, write_load, write_copy, read_load, Producer,
  Consumer,
}
use wiznet_rs.Ring.Concurrent.Fifo.{interleaving_is_fifo, claims_are_apart}
use wiznet_rs.Examples.Rings.{wrapped, wrapped-IsValid}

-- The producer has copied its byte and not published it; the consumer has loaded the counters.
abbrev halfway : System
unfolding write_copy
halfway = record {
  ring = write_copy wrapped (5 ∷ 6 ∷ []) 1;
  producer = Producer.copied (5 ∷ 6 ∷ []) 1;
  consumer = Consumer.loaded (0 ∷ 0 ∷ []) 2;
  sent = contents wrapped;
  received = [];
}

Reach-halfway : Reach (quiet wrapped (contents wrapped)) halfway
unfolding write_load write_copy read_load
Reach-halfway =
    later {t = record halfway { consumer = Consumer.idle }}
      (later
        {t = record halfway {
          ring = wrapped;
          producer = Producer.loaded (5 ∷ 6 ∷ []) 1;
          consumer = Consumer.idle;
        }}
        (later start (Step.put (Put.load (5 ∷ 6 ∷ [])))) (Step.put Put.copy))
      (Step.get (Get.load (0 ∷ 0 ∷ [])))

interleaving_is_fifo_example :
    IsValid halfway.ring × (halfway.received ++ contents halfway.ring ≡ halfway.sent)
interleaving_is_fifo_example = interleaving_is_fifo wrapped halfway wrapped-IsValid Reach-halfway

claims_are_apart_example :
    (halfway.ring.tail + 0) % halfway.ring.cap ≢ (halfway.ring.head + 1) % halfway.ring.cap
unfolding halfway
claims_are_apart_example =
    claims_are_apart wrapped halfway 0 1 wrapped-IsValid Reach-halfway (omega arith) (omega arith)
