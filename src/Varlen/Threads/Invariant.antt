-- ===== src/Varlen/Threads/Invariant.antt =====
-- What holds of a variable length ring while its two threads work, and what they know of it.
use mathlib.Core.Path.{subst}
use spscring.Base.{ℕ, ◌+◌, ◌-◌, ◌%◌, ◌≤◌, ◌<◌, ◌≡◌, ◌≢◌, false, List, ◌++◌, u64_mod}
use spscring.Control.Geometry.{IsAlignment}
use spscring.Memory.{Memory, load}
use spscring.View.{Segment}
use spscring.Varlen.Header.{load_slot_size, load_payload_size, load_meta}
use spscring.Varlen.Writer.{VarlenWriter, needed_size}
use spscring.Varlen.Reader.{Message}
use spscring.Varlen.Chain.{Chain}
use spscring.Varlen.Threads.{
  Request, IsMessage, ProducerPc, idle, at_head, loaded_read, pad_won, pad_stored, pad_committed,
  slot_won, filling, published, ConsumerPc, resting, loaded_front, loaded_fronts, skipping, showing,
  shown, advanced, Threads,
}

-- The part of the segment that the positions and the slots make up: the notify words are not in it.
pub record Ring : Type 0 where
  pub capacity : ℕ
  pub alignment : ℕ
  pub read : ℕ
  pub commit : ℕ
  pub write : ℕ
  pub bytes : Memory

abbrev pub ring_of : Segment → Ring
ring_of s = record {
  capacity = s.data_capacity;
  alignment = s.data_alignment;
  read = s.read_pos;
  commit = s.commit_pos;
  write = s.write_pos;
  bytes = s.bytes;
}

-- The geometry, and the fronts in order and within a round.
pub record Fronts (r : Ring) : Type 0 where
  pub alignment : IsAlignment r.alignment
  pub word : 8 ≤ r.alignment
  pub room : 0 < r.capacity
  pub aligned : r.capacity % r.alignment ≡ 0
  pub commit_slot : r.commit % r.alignment ≡ 0
  pub read_le : r.read ≤ r.commit
  pub commit_le : r.commit ≤ r.write
  pub write_le : r.write ≤ r.read + r.capacity
  pub small : r.write < u64_mod

-- The bytes from a position to the end of the region.
abbrev pub gap : Ring → ℕ → ℕ
gap r p = r.capacity - p % r.capacity

abbrev pub slot_size : Request → Ring → ℕ
slot_size q r = needed_size q.payload_size r.alignment

abbrev pub IsServed : Request → Ring → Type 0
IsServed q r = IsMessage r.alignment q × (slot_size q r ≤ r.capacity)

abbrev Free : VarlenWriter → Ring → Type 0
Free w r = (w.pending ≡ false) × (r.write ≡ r.commit)

-- The stretch that the producer has reserved behind commit_pos.
abbrev pub Reserves : Ring → ℕ → ℕ → Type 0
Reserves r p n = (p ≡ r.commit) × (r.write ≡ r.commit + n) × (n ≤ gap r r.commit)

abbrev pub ProducerKnows : VarlenWriter → Ring → ProducerPc → Type 0
ProducerKnows w r idle = Free w r
ProducerKnows w r (at_head q head) = Free w r × (head ≡ r.write) × IsServed q r
ProducerKnows w r (loaded_read q head read) =
    Free w r × (head ≡ r.write) × IsServed q r × (read ≤ r.read) × (r.write ≤ read + r.capacity)
ProducerKnows w r (pad_won q head) =
    (w.pending ≡ false)
    × IsServed q r
    × Reserves r head (gap r r.commit)
    × (gap r r.commit < slot_size q r)
ProducerKnows w r (pad_stored q head) =
    (w.pending ≡ false)
    × IsServed q r
    × Reserves r head (gap r r.commit)
    × (load_slot_size r.bytes (r.commit % r.capacity) ≡ gap r r.commit)
    × (load_payload_size r.bytes (r.commit % r.capacity) ≡ 0)
ProducerKnows w r (pad_committed q new_head) = Free w r × (new_head ≡ r.write) × IsServed q r
ProducerKnows w r (slot_won q head) =
    (w.pending ≡ false) × IsServed q r × Reserves r head (slot_size q r)
ProducerKnows w r (filling q position) =
    IsServed q r
    × Reserves r position (slot_size q r)
    × (load_slot_size r.bytes (r.commit % r.capacity) ≡ slot_size q r)
    × (load_payload_size r.bytes (r.commit % r.capacity) ≡ q.payload_size)
    × (load_meta r.bytes (r.commit % r.capacity) ≡ q.meta)
ProducerKnows w r published = Free w r

-- The message in the slot at an index.
abbrev pub message_in : Memory → ℕ → Message
message_in m at = record {
  payload = load m (at + 32) (load_payload_size m at);
  meta = load_meta m at;
}

-- A slot with a message is at the front.
abbrev pub HasFront : Ring → ℕ → Type 0
HasFront r read =
    (read ≡ r.read) × (r.read < r.commit) × (load_payload_size r.bytes (r.read % r.capacity) ≢ 0)

abbrev pub ConsumerKnows : Ring → ConsumerPc → Type 0
ConsumerKnows r resting = Unit {0}
ConsumerKnows r (loaded_front read) = read ≡ r.read
ConsumerKnows r (loaded_fronts read committed) = (read ≡ r.read) × (committed ≤ r.commit)
ConsumerKnows r (skipping read) =
    (read ≡ r.read) × (r.read < r.commit) × (load_payload_size r.bytes (r.read % r.capacity) ≡ 0)
ConsumerKnows r (showing read) = HasFront r read
ConsumerKnows r (shown read x) = HasFront r read × (x ≡ message_in r.bytes (r.read % r.capacity))
ConsumerKnows r advanced = Unit {0}

-- The messages in the ring.
abbrev pub HoldsIn : Ring → List Message → Type 0
HoldsIn r ms = Chain r.bytes r.capacity r.alignment r.commit r.read ms

-- The messages received, and then those in the ring, are the messages sent.
pub record Inv (t : Threads) : Type 0 where
  pub fronts : Fronts (ring_of t.segment)
  pub producer_knows : ProducerKnows t.writer (ring_of t.segment) t.producer
  pub consumer_knows : ConsumerKnows (ring_of t.segment) t.consumer
  pub held : List Message
  pub holds : HoldsIn (ring_of t.segment) held
  pub in_order : t.received ++ held ≡ t.sent

module _ (t : Threads) (inv : Inv t) where
  open inv use {producer_knows, consumer_knows}

  -- What either thread knows where it stands.
  pub producer_at : {p : ProducerPc} → t.producer ≡ p → ProducerKnows t.writer (ring_of t.segment) p
  producer_at e = subst (ProducerKnows t.writer (ring_of t.segment)) e producer_knows

  pub consumer_at : {p : ConsumerPc} → t.consumer ≡ p → ConsumerKnows (ring_of t.segment) p
  consumer_at e = subst (ConsumerKnows (ring_of t.segment)) e consumer_knows
