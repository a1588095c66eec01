-- ===== src/Varlen/Threads/Safety.antt =====
-- What holds in every state that the two threads can reach.
use native.Mathlib.Nat.{mod-lt}
use spscring.Base.{
  ltb, if◌then◌else◌, ℕ, ◌+◌, ◌%◌, ◌≤◌, ◌<◌, ◌≡◌, ◌⊎◌, ap, List, ◌++◌, Option, none, some, arith,
  inl, inr,
}
use spscring.View.{Segment}
use spscring.Varlen.Header.{load_slot_size}
use spscring.Varlen.Reader.{Message}
use spscring.Varlen.Chain.{done, pad, item}
use spscring.Varlen.Threads.{
  ProducerPc, idle, at_head, loaded_read, pad_won, pad_stored, pad_committed, slot_won, filling,
  published, Threads, committed,
}
use spscring.Varlen.Threads.Invariant.{
  Ring, ring_of, gap, slot_size, ProducerKnows, ConsumerKnows, HoldsIn, Inv,
}
use spscring.Varlen.Threads.Room.{gap-facts, slot-facts}
use spscring.Varlen.Threads.{
  ConsumerPc, resting, loaded_front, loaded_fronts, skipping, showing, shown, advanced, Reach,
}
use spscring.Varlen.Threads.Reached.{Reach-Inv}
use spscring.Varlen.Threads.Room.{alignment-le-gap}
use spscring.Varlen.Send.{Holds}
use spscring.Varlen.Chain.{apart, Chain-le}

-- The bytes that the producer's next stores go to, as an index and a count: a header, or a
-- payload.
abbrev pub writes_to : Segment → ProducerPc → Option (ℕ × ℕ)
writes_to s (pad_won r head) = some (head % s.data_capacity, 32)
writes_to s (slot_won r head) = some (head % s.data_capacity, 32)
writes_to s (filling r position) = some (position % s.data_capacity + 32, r.payload_size)
writes_to s _ = none

-- The slot that the consumer looks at, or is about to.
abbrev pub reads_from : Segment → ConsumerPc → Option (ℕ × ℕ)
reads_from s (loaded_fronts read committed) =
    if ltb read committed
    then some (read % s.data_capacity, load_slot_size s.bytes (read % s.data_capacity))
    else none
reads_from s (skipping read) =
    some (read % s.data_capacity, load_slot_size s.bytes (read % s.data_capacity))
reads_from s (showing read) =
    some (read % s.data_capacity, load_slot_size s.bytes (read % s.data_capacity))
reads_from s (shown read x) =
    some (read % s.data_capacity, load_slot_size s.bytes (read % s.data_capacity))
reads_from s _ = none

-- A range within the m bytes that the producer has reserved, or a header in a gap of m bytes.
record Reserved (r : Ring) (a n m : ℕ) : Type 0 where
  pos : 0 < m
  fits : m ≤ gap r r.commit
  below : r.commit + m ≤ r.write
  low : r.commit % r.capacity ≤ a
  high :
      (a + n ≤ r.commit % r.capacity + m)
      ⊎ ((r.commit % r.capacity + m ≡ r.capacity) × (a + n ≡ r.commit % r.capacity + 32))

writes_to-Reserved :
    (t : Threads) (inv : Inv t) (p : ProducerPc) (a n : ℕ)
    → ProducerKnows t.writer (ring_of t.segment) p
    → writes_to t.segment p ≡ some (a, n)
    → (m : ℕ) × Reserved (ring_of t.segment) a n m
writes_to-Reserved t inv idle a n k e = cc
writes_to-Reserved t inv (at_head q head) a n k e = cc
writes_to-Reserved t inv (loaded_read q head read) a n k e = cc
writes_to-Reserved t inv (pad_won q head) a n k e =
    let (free, served, (now, next, fits), short) = k in
    let (multiple, low, whole) = gap-facts (ring_of t.segment) inv.fronts in
    let place = ap (λ p. p % t.data_capacity) now in
    (
      gap (ring_of t.segment) t.commit_pos,
      record {
        pos = omega arith;
        fits = fits;
        below = omega arith;
        low = ground (arith, e, place);
        high = inr (whole, ground (arith, e, place));
      },
    )
writes_to-Reserved t inv (pad_stored q head) a n k e = cc
writes_to-Reserved t inv (pad_committed q new_head) a n k e = cc
writes_to-Reserved t inv (slot_won q head) a n k e =
    let (free, served, (now, next, fits)) = k in
    let (above, multiple, word) = slot-facts q (ring_of t.segment) inv.fronts served in
    let place = ap (λ p. p % t.data_capacity) now in
    (
      slot_size q (ring_of t.segment),
      record {
        pos = omega arith;
        fits = fits;
        below = omega arith;
        low = ground (arith, e, place);
        high = inl (ground (arith, e, place, above));
      },
    )
writes_to-Reserved t inv (filling q position) a n k e =
    let (served, (now, next, fits), size, payload, meta_there) = k in
    let (above, multiple, word) = slot-facts q (ring_of t.segment) inv.fronts served in
    let place = ap (λ p. p % t.data_capacity) now in
    (
      slot_size q (ring_of t.segment),
      record {
        pos = omega arith;
        fits = fits;
        below = omega arith;
        low = ground (arith, e, place);
        high = inl (ground (arith, e, place, above));
      },
    )
writes_to-Reserved t inv published a n k e = cc

reads_from-front :
    (t : Threads) (c : ConsumerPc) (b k : ℕ)
    → ConsumerKnows (ring_of t.segment) c
    → reads_from t.segment c ≡ some (b, k)
    → (t.read_pos < t.commit_pos)
      × (b ≡ t.read_pos % t.data_capacity)
      × (k ≡ load_slot_size t.bytes (t.read_pos % t.data_capacity))
reads_from-front t resting b k h e = cc
reads_from-front t (loaded_front read) b k h e = cc
reads_from-front t (loaded_fronts read committed) b k h e = ground (arith, h, e)
reads_from-front t (skipping read) b k h e = ground (arith, h, e)
reads_from-front t (showing read) b k h e = ground (arith, h, e)
reads_from-front t (shown read x) b k h e = ground (arith, h, e)
reads_from-front t advanced b k h e = cc

front-fits :
    (r : Ring) {ms : List Message}
    → HoldsIn r ms
    → r.read < r.commit
    → let size = load_slot_size r.bytes (r.read % r.capacity) in
      (r.read % r.capacity + size ≤ r.capacity) × (r.read + size ≤ r.commit)
front-fits r (done e) lt = absurd (omega arith)
front-fits r (pad size al h fit a b c) lt = (omega (arith, a), omega (arith, a, Chain-le c))
front-fits r (item size x al p q fit a b d e c) lt =
    (omega (arith, a), omega (arith, a, Chain-le c))

module _ {start t : Threads} (inv : Inv start) (r : Reach start t) where
  -- From a state with the invariant, however the accesses of the two threads fall while the 64-bit
  -- positions last, and each message has a payload and fits its header fields: the messages
  -- received, and then those in the ring, are the messages sent, in order and each once.
  pub messages_in_order :
      (held : List Message) × Holds t.segment held × (t.received ++ held ≡ t.sent)
  messages_in_order = let i = Reach-Inv inv r in (i.held, i.holds, i.in_order)

  -- Under the same conditions the bytes that the producer stores to and the slot that the consumer
  -- looks at do not overlap, and the slot lies within the data region; so do the bytes stored to if
  -- the alignment is 32 or more.
  pub stores_apart :
      (a n b k : ℕ)
      → writes_to t.segment t.producer ≡ some (a, n)
      → reads_from t.segment t.consumer ≡ some (b, k)
      → ((a + n ≤ b) ⊎ (b + k ≤ a))
        × (b + k ≤ t.data_capacity)
        × (32 ≤ t.data_alignment → a + n ≤ t.data_capacity)
  stores_apart a n b k writes reads =
      let i = Reach-Inv inv r in
      let ring = ring_of t.segment in
      let (m, mine) = writes_to-Reserved t i t.producer a n i.producer_knows writes in
      let (lt, at_b, at_k) = reads_from-front t t.consumer b k i.consumer_knows reads in
      let (fit, le) = front-fits ring i.holds lt in
      let in_region : t.commit_pos % t.data_capacity + m ≤ t.data_capacity =
        omega (arith, mine.fits, mod-lt t.commit_pos i.fronts.room) in
      let clear =
        apart t.data_capacity t.read_pos t.commit_pos
          (load_slot_size t.bytes (t.read_pos % t.data_capacity)) m le
          (omega (arith, mine.below, i.fronts.write_le)) mine.pos fit in_region in
      let inside = mod-lt t.read_pos i.fronts.room in
      let wide = alignment-le-gap ring i.fronts in
      (
        ground (arith, clear, mine.high, mine.low, at_b, at_k, inside),
        omega (arith, at_b, at_k, fit),
        λ h. ground (arith, mine.high, in_region, wide, mod-lt t.commit_pos i.fronts.room),
      )
