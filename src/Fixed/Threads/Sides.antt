-- ===== src/Fixed/Threads/Sides.antt =====
-- What the locals of the two threads say about the segment.
use spscring.Base.{ℕ, ◌+◌, ◌%◌, ◌≤◌, ◌<◌, ◌≡◌, ◌∙◌, true, false, List, arith, sym}
use spscring.Memory.{load}
use spscring.View.{Segment}
use spscring.Fixed.{FixedWriter}
use spscring.Fixed.Threads.{
  ProducerPc, idle, loaded_write, loaded_both, filling, published, ConsumerPc, resting,
  loaded_front, loaded_fronts, viewing, viewed, advanced,
}

-- The producer's own fronts are up to date; the read_pos that it has loaded may be out of date, and
-- is then too low.
abbrev pub ProducerKnows : FixedWriter → Segment → ProducerPc → Type 0
ProducerKnows w s idle = w.pending ≡ false
ProducerKnows w s (loaded_write write) = (w.pending ≡ false) × (write ≡ s.write_pos)
ProducerKnows w s (loaded_both write read) =
    (w.pending ≡ false)
    × (write ≡ s.write_pos)
    × (read ≤ s.read_pos)
    × (write ≤ read + s.data_capacity)
    × (read % s.fixed_item_size ≡ 0)
ProducerKnows w s (filling slot) = (w.pending ≡ true) × (slot ≡ s.commit_pos % s.data_capacity)
ProducerKnows w s published = w.pending ≡ false

-- The slot at read_pos holds a message.
abbrev pub HasOldest : Segment → ℕ → Type 0
HasOldest s slot = (slot ≡ s.read_pos % s.data_capacity) × (s.read_pos < s.commit_pos)

abbrev pub oldest : Segment → List ℕ
oldest s = load s.bytes (s.read_pos % s.data_capacity) s.fixed_item_size

-- The commit_pos that the consumer has loaded may be too low; what it has seen of a slot is what
-- the slot holds.
abbrev pub ConsumerKnows : Segment → ConsumerPc → Type 0
ConsumerKnows s resting = Unit {0}
ConsumerKnows s (loaded_front read) = read ≡ s.read_pos
ConsumerKnows s (loaded_fronts read committed) = (read ≡ s.read_pos) × (committed ≤ s.commit_pos)
ConsumerKnows s (viewing slot) = HasOldest s slot
ConsumerKnows s (viewed slot seen) = HasOldest s slot × (seen ≡ oldest s)
ConsumerKnows s advanced = Unit {0}

-- What the producer does leaves the consumer's side as it knows it.
pub record ConsumerSide (s t : Segment) : Type 0 where
  pub capacity : t.data_capacity ≡ s.data_capacity
  pub read : t.read_pos ≡ s.read_pos
  pub commit : s.commit_pos ≤ t.commit_pos
  pub message : s.read_pos < s.commit_pos → oldest t ≡ oldest s

pub ConsumerKnows-kept :
    (s t : Segment) (p : ConsumerPc) → ConsumerSide s t → ConsumerKnows s p → ConsumerKnows t p
ConsumerKnows-kept s t resting f k = tt
ConsumerKnows-kept s t (loaded_front read) f k = k ∙ sym f.read
ConsumerKnows-kept s t (loaded_fronts read committed) f (k, l) =
    (k ∙ sym f.read, omega (arith, f.commit))
ConsumerKnows-kept s t (viewing slot) f (k, l) = ground (arith, f)
ConsumerKnows-kept s t (viewed slot seen) f ((k, l), m) = (ground (arith, f), ground (arith, f))
ConsumerKnows-kept s t advanced f k = tt

-- What the consumer does leaves the producer's side as it knows it.
pub record ProducerSide (s t : Segment) : Type 0 where
  pub capacity : t.data_capacity ≡ s.data_capacity
  pub item : t.fixed_item_size ≡ s.fixed_item_size
  pub write : t.write_pos ≡ s.write_pos
  pub commit : t.commit_pos ≡ s.commit_pos
  pub read : s.read_pos ≤ t.read_pos

pub ProducerKnows-kept :
    (w : FixedWriter) (s t : Segment) (p : ProducerPc)
    → ProducerSide s t
    → ProducerKnows w s p
    → ProducerKnows w t p
ProducerKnows-kept w s t idle f k = k
ProducerKnows-kept w s t (loaded_write write) f k = ground (arith, f)
ProducerKnows-kept w s t (loaded_both write read) f k = ground (arith, f)
ProducerKnows-kept w s t (filling slot) f k = ground (arith, f)
ProducerKnows-kept w s t published f k = k
