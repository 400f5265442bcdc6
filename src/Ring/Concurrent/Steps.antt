-- ===== src/Ring/Concurrent/Steps.antt =====
-- wiznet-rs/src/spsc_ring.rs: `write`, `read` and `peek` cut at their accesses to shared memory.
-- An access is one step of an interleaving: the order of steps is the order in which the atomic
-- accesses take effect, and the copies between a load and its `Release` store are one step.
use wiznet_rs.Prelude.{
  ℕ, ◌-◌, min, List, [], ◌++◌, ◌≡◌, refl, inl, inr, ◌==◌, Bool-cases, if◌then◌else◌, length, take,
}
use wiznet_rs.Ring.{SpscRing, wrapping_add, wrapping_sub, capacity, copy_in, copy_out, write, read}

-- Where `write` stands, with its live variables.
pub data Producer : Type 0 where
  idle : Producer
  loaded : (src : List ℕ) (n : ℕ) → Producer  -- before the copies
  copied : (src : List ℕ) (n : ℕ) → Producer  -- before the store to `tail`

-- Where `read` or `peek` stands.
pub data Consumer : Type 0 where
  idle : Consumer
  loaded : (dst : List ℕ) (n : ℕ) → Consumer
  copied : (dst : List ℕ) (n : ℕ) → Consumer  -- before the store to `head`, or the end of `peek`

-- The loads and the early returns. The producer owns `tail`, so only its load of `head` can race.
unfoldable pub write_load : SpscRing → List ℕ → Producer
write_load r src =
    if capacity r == 0
    then Producer.idle
    else let n = min (length src) (r.cap - wrapping_sub r.tail r.head) in
      if n == 0 then Producer.idle else Producer.loaded src n

unfoldable pub write_copy : SpscRing → List ℕ → ℕ → SpscRing
write_copy r src n = record r { buf = copy_in r src n }

unfoldable pub write_publish : SpscRing → ℕ → SpscRing
write_publish r n = record r { tail = wrapping_add r.tail n }

unfoldable pub read_load : SpscRing → List ℕ → Consumer
read_load r dst =
    if capacity r == 0
    then Consumer.idle
    else let n = min (length dst) (wrapping_sub r.tail r.head) in
      if n == 0 then Consumer.idle else Consumer.loaded dst n

unfoldable pub read_publish : SpscRing → ℕ → SpscRing
read_publish r n = record r { head = wrapping_add r.head n }

-- A step of the producer: the ring before and after, and the bytes that it hands over.
pub data Put (r : SpscRing) : Producer → SpscRing → List ℕ → Producer → Type 0 where
  load : (src : List ℕ) → Put r Producer.idle r [] (write_load r src)
  copy :
      {src : List ℕ} {n : ℕ}
      → Put r (Producer.loaded src n) (write_copy r src n) [] (Producer.copied src n)
  publish :
      {src : List ℕ} {n : ℕ}
      → Put r (Producer.copied src n) (write_publish r n) (take n src) Producer.idle

-- A step of the consumer, with the bytes that it takes. `keep` is the end of a `peek`.
pub data Get (r : SpscRing) : Consumer → SpscRing → List ℕ → Consumer → Type 0 where
  load : (dst : List ℕ) → Get r Consumer.idle r [] (read_load r dst)
  copy :
      {dst : List ℕ} {n : ℕ}
      → Get r (Consumer.loaded dst n) r [] (Consumer.copied (copy_out r dst n) n)
  publish :
      {dst : List ℕ} {n : ℕ}
      → Get r (Consumer.copied dst n) (read_publish r n) (take n dst) Consumer.idle
  keep : {dst : List ℕ} {n : ℕ} → Get r (Consumer.copied dst n) r [] Consumer.idle

-- Both contexts over one ring, with all bytes handed over and taken so far.
pub record System : Type 0 where
  pub ring : SpscRing
  pub producer : Producer
  pub consumer : Consumer
  pub sent : List ℕ
  pub received : List ℕ

pub data Step (s : System) : System → Type 0 where
  put :
      {r : SpscRing} {out : List ℕ} {p : Producer}
      → Put s.ring s.producer r out p
      → Step s (record s { ring = r; producer = p; sent = s.sent ++ out })
  get :
      {r : SpscRing} {out : List ℕ} {c : Consumer}
      → Get s.ring s.consumer r out c
      → Step s (record s { ring = r; consumer = c; received = s.received ++ out })

-- Both contexts outside the ring's operations, and `bytes` stored.
abbrev pub quiet : SpscRing → List ℕ → System
quiet r bytes = record {
  ring = r;
  producer = Producer.idle;
  consumer = Consumer.idle;
  sent = bytes;
  received = [];
}

pub data Reach (s : System) : System → Type 0 where
  start : Reach s s
  later : {t u : System} → Reach s t → Step t u → Reach s u

-- The rest of an operation, with no step of the other context between.
unfoldable write_rest : SpscRing → Producer → ℕ × SpscRing
unfolding write_copy write_publish
write_rest r Producer.idle = (0, r)
write_rest r (Producer.loaded src n) = (n, write_publish (write_copy r src n) n)
write_rest r (Producer.copied src n) = (n, write_publish r n)

unfoldable read_rest : SpscRing → List ℕ → Consumer → ℕ × List ℕ × SpscRing
unfolding read_publish
read_rest r dst Consumer.idle = (0, dst, r)
read_rest r _ (Consumer.loaded dst n) = (n, copy_out r dst n, read_publish r n)
read_rest r _ (Consumer.copied dst n) = (n, dst, read_publish r n)

-- Run one after another, the steps of a write and of a read are the operations, on every ring and
-- slice.
steps-write_read :
    (r : SpscRing) (s : List ℕ)
    → (write_rest r (write_load r s) ≡ write r s) × (read_rest r s (read_load r s) ≡ read r s)
unfolding write_rest read_rest write_load read_load write_copy write_publish read_publish write read
steps-write_read r s = (
  elim (Bool-cases (r.cap == 0)) [
    | inl none ↦ rw none refl
    | inr some ↦
        rw some (elim (Bool-cases (min (length s) (r.cap - wrapping_sub r.tail r.head) == 0)) [
          | inl full ↦ rw full refl
          | inr more ↦ rw more refl
        ])
  ],
  elim (Bool-cases (r.cap == 0)) [
    | inl none ↦ rw none refl
    | inr some ↦ rw some (elim (Bool-cases (min (length s) (wrapping_sub r.tail r.head) == 0)) [
      | inl empty ↦ rw empty refl
      | inr more ↦ rw more refl
    ])
  ],
)
