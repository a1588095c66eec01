-- ===== src/Fixed/Threads/Safety.antt =====
-- What holds in every state that the two threads can reach.
use native.Mathlib.Nat.{div-add-mod'}
use spscring.Base.{
  Bool-cases, ℕ, ◌+◌, ◌*◌, ◌/◌, ◌≤◌, ◌<◌, ◌≡◌, ◌⊎◌, inl, inr, ◌++◌, Option, none, some, length,
  arith,
}
use spscring.View.{Segment}
use spscring.Fixed.Valid.{IsValid}
use spscring.Fixed.{FixedWriter, item_count}
use spscring.Fixed.Contents.{contents, published, length-contents}
use spscring.Fixed.Refine.{published-mul}
use spscring.Positions.{slots-apart, slot-fits}
use spscring.Fixed.Threads.{
  filling, ConsumerPc, resting, loaded_front, loaded_fronts, viewing, viewed, advanced, Threads,
  Reach,
}
use spscring.Fixed.Threads.Sides.{HasOldest, ConsumerKnows}
use spscring.Fixed.Threads.Reached.{Reach-Inv}
use spscring.Fixed.Threads.Invariant.{Inv, producer_at}

-- The slot that the consumer has a pointer to.
abbrev pub looks_at : ConsumerPc → Option ℕ
looks_at (viewing slot) = some slot
looks_at (viewed slot seen) = some slot
looks_at _ = none

looks_at-HasOldest :
    (t : Threads) (p : ConsumerPc) (slot : ℕ)
    → ConsumerKnows t.segment p
    → looks_at p ≡ some slot
    → HasOldest t.segment slot
looks_at-HasOldest t resting slot k e = cc
looks_at-HasOldest t (loaded_front read) slot k e = cc
looks_at-HasOldest t (loaded_fronts read committed) slot k e = cc
looks_at-HasOldest t (viewing at) slot k e = ground (arith, k)
looks_at-HasOldest t (viewed at seen) slot k e = ground (arith, k)
looks_at-HasOldest t advanced slot k e = cc

count_le : (n k m : ℕ) → 0 < m → n * m ≤ k * m → n ≤ k
count_le n k m pos h = grind arith

pub commit-le-write : (w : FixedWriter) (s : Segment) → IsValid w s → s.commit_pos ≤ s.write_pos
commit-le-write w s v = elim (Bool-cases w.pending) [
  | inl e ↦ omega (arith, v.reserved e)
  | inr e ↦ omega (arith, v.free e)
]

pub length-contents-le : (t : Threads) → Inv t → length (contents t.segment) ≤ item_count t.segment
unfolding item_count
length-contents-le t inv =
    let v = inv.valid in
    let held = published-mul t.writer t.segment v in
    let whole = div-add-mod' t.data_capacity t.fixed_item_size in
    let committed_le = commit-le-write t.writer t.segment v in
    rw (length-contents t.segment) (
      count_le (published t.segment) (t.data_capacity / t.fixed_item_size) t.fixed_item_size v.item
        (omega (arith, held, whole, v.whole, committed_le, v.write_le)))

module _ {start t : Threads} (inv : Inv start) (r : Reach start t) where
  -- From a state with the invariant, however the accesses of the two threads fall while the 64-bit
  -- positions last: the messages received, and then those in the ring, are the messages sent, in
  -- order and each once; the ring holds no more than its slots.
  pub received_in_order :
      (t.received ++ contents t.segment ≡ t.sent)
      × (length (contents t.segment) ≤ item_count t.segment)
  received_in_order = ((Reach-Inv inv r).in_order, length-contents-le t (Reach-Inv inv r))

  -- Under the same conditions the slot that the producer writes to and the slot that the consumer
  -- has a pointer to do not overlap, and both lie within the data region.
  pub no_data_race :
      (p q : ℕ)
      → t.producer ≡ filling p
      → looks_at t.consumer ≡ some q
      → ((p + t.fixed_item_size ≤ q) ⊎ (q + t.fixed_item_size ≤ p))
        × (p + t.fixed_item_size ≤ t.data_capacity)
        × (q + t.fixed_item_size ≤ t.data_capacity)
  no_data_race p q writes looks =
      let i = Reach-Inv inv r in
      let v = i.valid in
      let (held, at_p) = producer_at t i writes in
      let (at_q, some_there) = looks_at-HasOldest t t.consumer q i.consumer_knows looks in
      ground (
        arith,
        slots-apart t.fixed_item_size t.data_capacity v.room v.whole t.read_pos t.commit_pos,
        slot-fits t.fixed_item_size t.data_capacity v.room v.whole t.read_pos v.read_slot,
        slot-fits t.fixed_item_size t.data_capacity v.room v.whole t.commit_pos v.commit_slot,
        v.reserved held,
        v.item,
        at_p,
        at_q,
      )
