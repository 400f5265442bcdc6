-- ===== src/Ring/Concurrent/Fifo.antt =====
-- wiznet-rs/src/spsc_ring.rs: what a producer and a consumer on one ring may rely on, whatever
-- the order of their steps.
use native.Mathlib.Nat.{add-mod}
use wiznet_rs.Prelude.{ℕ, ◌+◌, ◌-◌, ◌%◌, ◌≤◌, ◌<◌, ◌≡◌, ◌≢◌, refl, sym, ap, ◌∙◌, ◌++◌, arith}
use wiznet_rs.Ring.{SpscRing, wrapping_sub}
use wiznet_rs.Ring.Append.{index_ne}
use wiznet_rs.Ring.Bounds.{IsValid, contents, tail_index}
use wiznet_rs.Ring.Refine.{length-contents}
use wiznet_rs.Ring.Concurrent.Steps.{Producer, Consumer, System, Reach, quiet}
use wiznet_rs.Ring.Concurrent.Keeps.{Inv, Writes, Reads, Reach-Inv}

Inv-quiet : (r : SpscRing) → IsValid r → Inv (quiet r (contents r))
Inv-quiet r v = record { valid = v; writes = tt; reads = tt; accounted = refl }

-- From a valid ring, in every state that a producer and a consumer reach in any order of their
-- steps, the ring is valid, and the bytes taken so far followed by the stored ones are the bytes
-- first stored followed by those handed over: none is lost, doubled or moved.
pub interleaving_is_fifo :
    (r : SpscRing) (s : System)
    → IsValid r
    → Reach (quiet r (contents r)) s
    → IsValid s.ring × (s.received ++ contents s.ring ≡ s.sent)
interleaving_is_fifo r s v h = let i = Reach-Inv h (Inv-quiet r v) in (i.valid, sym i.accounted)

-- How many bytes a context may touch between its loads and its store.
abbrev pub producer_claim : Producer → ℕ
producer_claim Producer.idle = 0
producer_claim (Producer.loaded _ n) = n
producer_claim (Producer.copied _ n) = n

abbrev pub consumer_claim : Consumer → ℕ
consumer_claim Consumer.idle = 0
consumer_claim (Consumer.loaded _ n) = n
consumer_claim (Consumer.copied _ n) = n

claim-room :
    (r : SpscRing) (p : Producer)
    → Writes r p
    → producer_claim p ≤ r.cap - wrapping_sub r.tail r.head
claim-room r Producer.idle w = omega arith
claim-room r (Producer.loaded _ n) w = w.1
claim-room r (Producer.copied _ n) w = w.1

claim-stored :
    (r : SpscRing) (c : Consumer) → Reads r c → consumer_claim c ≤ wrapping_sub r.tail r.head
claim-stored r Consumer.idle h = omega arith
claim-stored r (Consumer.loaded _ n) h = omega (arith, h.1, length-contents r)
claim-stored r (Consumer.copied _ n) h = omega (arith, h.0, length-contents r)

shift : (cap a b d : ℕ) → a % cap ≡ b % cap → (a + d) % cap ≡ (b + d) % cap
shift cap a b d e = add-mod a d cap ∙ ap (λ k. (k + d % cap) % cap) e ∙ sym (add-mod b d cap)

-- An index of the free space is no index of the stored bytes.
apart :
    (r : SpscRing) (i j : ℕ)
    → IsValid r
    → i < r.cap - wrapping_sub r.tail r.head
    → j < wrapping_sub r.tail r.head
    → (r.tail + i) % r.cap ≢ (r.head + j) % r.cap
apart r i j v small within e =
    let n = wrapping_sub r.tail r.head in
    index_ne r.cap (r.head + j) (n - j + i) (omega arith) (omega arith) (
      ap (λ k. k % r.cap) {x = r.head + j + (n - j + i)} {y = r.head + n + i} (omega arith)
      ∙ shift r.cap (r.head + n) r.tail i (tail_index r v)
      ∙ e)

-- In every state that the two contexts reach from a valid ring, no byte of the memory that the
-- producer may write is one that the consumer may read: their copies never race.
pub claims_are_apart :
    (r : SpscRing) (s : System) (i j : ℕ)
    → IsValid r
    → Reach (quiet r (contents r)) s
    → i < producer_claim s.producer
    → j < consumer_claim s.consumer
    → (s.ring.tail + i) % s.ring.cap ≢ (s.ring.head + j) % s.ring.cap
claims_are_apart r s i j v h small within =
    let inv = Reach-Inv h (Inv-quiet r v) in
    apart s.ring i j inv.valid (omega (arith, claim-room s.ring s.producer inv.writes))
      (omega (arith, claim-stored s.ring s.consumer inv.reads))
