-- ===== src/Ring/Concurrent/Keeps.antt =====
-- wiznet-rs/src/spsc_ring.rs: what holds between the steps of a producer and a consumer.
use wiznet_rs.Prelude.{
  ℕ, ◌≤◌, min, ◌≡◌, refl, sym, ap, ◌∙◌, List, ◌++◌, inl, inr, arith, ◌==◌, Bool-cases, length, take,
  drop, append-nil, append_assoc, take-append-drop, take-append_le, length-append,
}
use wiznet_rs.Ring.{SpscRing, wrapping_sub}
use wiznet_rs.Ring.Window.{span}
use wiznet_rs.Ring.Bounds.{IsValid, contents}
use wiznet_rs.Ring.Refine.{length-contents}
use wiznet_rs.Ring.Concurrent.Steps.{
  Producer, Consumer, write_load, write_copy, read_load, read_publish, Put, Get, System, Step,
  Reach, start, later,
}
use wiznet_rs.Ring.Concurrent.Moves.{
  room, write_copy-IsValid, contents-write_copy, span-write_copy, write_publish-IsValid,
  contents-write_publish, read_publish-IsValid, contents-read_publish, room-read_publish,
  take-copy_out,
}

-- The producer's count fits the free space, and what it has copied lies behind `tail`.
abbrev pub Writes : SpscRing → Producer → Type 0
Writes r Producer.idle = Unit
Writes r (Producer.loaded src n) = (n ≤ length src) × (n ≤ room r)
Writes r (Producer.copied src n) =
    (n ≤ length src) × (n ≤ room r) × (span r.cap r.buf r.tail n ≡ take n src)

-- The consumer's count is stored, and what it has copied are the oldest bytes.
abbrev pub Reads : SpscRing → Consumer → Type 0
Reads r Consumer.idle = Unit
Reads r (Consumer.loaded dst n) = (n ≤ length dst) × (n ≤ length (contents r))
Reads r (Consumer.copied dst n) = (n ≤ length (contents r)) × (take n dst ≡ take n (contents r))

load-Writes : (r : SpscRing) (src : List ℕ) → Writes r (write_load r src)
unfolding write_load
load-Writes r src = elim (Bool-cases (r.cap == 0)) [
  | inl none ↦ rw none tt
  | inr some ↦ rw some (elim (Bool-cases (min (length src) (room r) == 0)) [
    | inl full ↦ rw full tt
    | inr more ↦ rw more (omega arith, omega arith)
  ])
]

load-Reads : (r : SpscRing) (dst : List ℕ) → Reads r (read_load r dst)
unfolding read_load
load-Reads r dst = elim (Bool-cases (r.cap == 0)) [
  | inl none ↦ rw none tt
  | inr some ↦ rw some (elim (Bool-cases (min (length dst) (wrapping_sub r.tail r.head) == 0)) [
    | inl empty ↦ rw empty tt
    | inr more ↦ rw more (omega arith, omega (arith, length-contents r))
  ])
]

-- What the producer does to the ring keeps it valid and appends what it hands over.
Put-Writes :
    {r r' : SpscRing} {p p' : Producer} {out : List ℕ}
    → IsValid r
    → Put r p r' out p'
    → Writes r p
    → IsValid r' × Writes r' p' × (contents r' ≡ contents r ++ out)
unfolding write_copy
Put-Writes {r} v (Put.load src) w = (v, load-Writes r src, sym (append-nil _))
Put-Writes {r} {p = Producer.loaded src n} v Put.copy (fits, small) = (
  write_copy-IsValid r v src n fits small,
  (fits, small, span-write_copy r v src n fits small),
  contents-write_copy r v src n fits small ∙ sym (append-nil _),
)
Put-Writes {r} {p = Producer.copied src n} v Put.publish (fits, small, behind) = (
  write_publish-IsValid r v n small,
  tt,
  contents-write_publish r v n small ∙ ap (λ ys. contents r ++ ys) behind,
)

-- What the consumer does keeps the ring valid and takes the oldest bytes, in order.
Get-Reads :
    {r r' : SpscRing} {c c' : Consumer} {out : List ℕ}
    → IsValid r
    → Get r c r' out c'
    → Reads r c
    → IsValid r' × Reads r' c' × (contents r ≡ out ++ contents r')
Get-Reads {r} v (Get.load dst) h = (v, load-Reads r dst, refl)
Get-Reads {r} {c = Consumer.loaded dst n} v Get.copy (fits, within) =
    (v, (within, take-copy_out r v n (omega (arith, length-contents r)) dst fits), refl)
Get-Reads {r} {c = Consumer.copied dst n} v Get.publish (within, oldest) = (
  read_publish-IsValid r v n (omega (arith, length-contents r)),
  tt,
  sym (take-append-drop n (contents r))
      ∙ ap (λ ys. ys ++ drop n (contents r)) (sym oldest)
      ∙ ap (λ ys. take n dst ++ ys)
          (sym (contents-read_publish r v n (omega (arith, length-contents r)))),
)
Get-Reads v Get.keep h = (v, tt, refl)

-- Bytes put behind the stored ones leave the consumer's claim good.
Reads-more :
    (r r' : SpscRing) (out : List ℕ) (c : Consumer)
    → contents r' ≡ contents r ++ out
    → Reads r c
    → Reads r' c
Reads-more r r' out Consumer.idle e h = tt
Reads-more r r' out (Consumer.loaded dst n) e (fits, within) =
    (fits, omega (arith, ap length e, length-append (contents r) out))
Reads-more r r' out (Consumer.copied dst n) e (within, oldest) = (
  omega (arith, ap length e, length-append (contents r) out),
  oldest ∙ sym (take-append_le n (contents r) out within) ∙ ap (take n) (sym e),
)

-- The consumer only gives up space: the producer's claim stays good.
Get-Writes :
    {r r' : SpscRing} {c c' : Consumer} {out : List ℕ}
    → IsValid r
    → Get r c r' out c'
    → Reads r c
    → (p : Producer) → Writes r p
    → Writes r' p
unfolding read_publish
Get-Writes v (Get.load dst) h p w = w
Get-Writes v Get.copy h p w = w
Get-Writes v Get.keep h p w = w
Get-Writes v Get.publish h Producer.idle w = tt
Get-Writes {r} {c = Consumer.copied dst n} v Get.publish (within, oldest) (Producer.loaded src m)
      (fits, small) =
    (
      fits,
      omega (arith, length-contents r, room-read_publish r v n (omega (arith, length-contents r))),
    )
Get-Writes {r} {c = Consumer.copied dst n} v Get.publish (within, oldest) (Producer.copied src m)
      (fits, small, behind) =
    (
      fits,
      omega (arith, length-contents r, room-read_publish r v n (omega (arith, length-contents r))),
      behind,
    )

-- Both contexts' claims are good, and every byte handed over is taken or stored, once, in order.
pub record Inv (s : System) : Type 0 where
  pub valid : IsValid s.ring
  pub writes : Writes s.ring s.producer
  pub reads : Reads s.ring s.consumer
  pub accounted : s.sent ≡ s.received ++ contents s.ring

Step-Inv : {s t : System} → Step s t → Inv s → Inv t
Step-Inv {s} (Step.put {r} {out} m) i =
    let (valid, writes, more) = Put-Writes i.valid m i.writes in
    record {
      valid = valid;
      writes = writes;
      reads = Reads-more s.ring r out s.consumer more i.reads;
      accounted =
          ap (λ ys. ys ++ out) i.accounted
          ∙ append_assoc s.received (contents s.ring) out
          ∙ ap (λ ys. s.received ++ ys) (sym more);
    }
Step-Inv {s} (Step.get {out} m) i =
    let (valid, reads, less) = Get-Reads i.valid m i.reads in
    record {
      valid = valid;
      writes = Get-Writes i.valid m i.reads s.producer i.writes;
      reads = reads;
      accounted =
          i.accounted ∙ ap (λ ys. s.received ++ ys) less ∙ sym (append_assoc s.received out _);
    }

pub Reach-Inv : {s t : System} → Reach s t → Inv s → Inv t
Reach-Inv start i = i
Reach-Inv (later r st) i = Step-Inv st (Reach-Inv r i)
