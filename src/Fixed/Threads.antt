-- ===== src/Fixed/Threads.antt =====
-- A producer and a consumer on one fixed ring, interleaved: the calls of fixed_writer.hpp and
-- fixed_reader.hpp, one access to shared memory at a time. Locals are those of the calls in progress.
-- A call that touches nothing shared is left out: try_reserve with a reservation outstanding, and
-- commit without one.
pub mod Sides
pub mod Messages
pub mod Invariant
pub mod Producer
pub mod Consumer
pub mod Reached
pub mod Safety
mod Tests
use spscring.Base.{
  ℕ, ◌+◌, ◌≤◌, ◌<◌, ◌≡◌, false, List, [], ◌∷◌, ◌++◌, Option, none, some, length, add64, mul64,
  u64_mod,
}
use spscring.Memory.{load}
use spscring.View.{Segment, store_commit_pos, store_read_pos, wake_consumer, wake_producer}
use spscring.Fixed.{FixedWriter, reserve_from, read_from, fill}

-- Where the producer stands: in try_reserve with the fronts that it has loaded, between a
-- successful try_reserve and commit with the slot, or in commit before it wakes the consumer.
pub data ProducerPc : Type 0 where
  idle : ProducerPc
  loaded_write : (write : ℕ) → ProducerPc
  loaded_both : (write read : ℕ) → ProducerPc
  filling : (slot : ℕ) → ProducerPc
  published : ProducerPc

-- Where the consumer stands: in try_read, with the slot that it has found, with the bytes that it
-- has copied out of it, or in read_advance before it wakes the producer.
pub data ConsumerPc : Type 0 where
  resting : ConsumerPc
  loaded_front : (read : ℕ) → ConsumerPc
  loaded_fronts : (read committed : ℕ) → ConsumerPc
  viewing : (slot : ℕ) → ConsumerPc
  viewed : (slot : ℕ) (seen : List ℕ) → ConsumerPc
  advanced : ConsumerPc

-- `sent` are the slots that have been committed, and `received` those that have been seen and
-- given back, in order.
pub record Threads : Type 0 where
  pub segment : Segment
  pub open segment use *
  pub writer : FixedWriter
  pub producer : ProducerPc
  pub consumer : ConsumerPc
  pub sent : List (List ℕ)
  pub received : List (List ℕ)

-- try_reserve
pub data Reserving (t : Threads) : Threads → Type 0 where
  load_write_pos :
      t.producer ≡ idle
      → t.writer.pending ≡ false
      → Reserving t (record t { producer = loaded_write t.write_pos })
  load_read_pos :
      (write : ℕ)
      → t.producer ≡ loaded_write write
      → Reserving t (record t { producer = loaded_both write t.read_pos })
  find_full :
      (write read : ℕ)
      → t.producer ≡ loaded_both write read
      → (reserve_from write read t.writer t.segment).0 ≡ none
      → Reserving t (record t { producer = idle })
  reserve :
      (write read slot : ℕ) (w' : FixedWriter) (s' : Segment)
      → t.producer ≡ loaded_both write read
      → t.write_pos + t.fixed_item_size < u64_mod
      → reserve_from write read t.writer t.segment ≡ (some slot, w', s')
      → Reserving t (record t { producer = filling slot; writer = w'; segment = s' })

-- A write into the slot; the store to commit_pos; the bump of commit_seq and the wake.
abbrev pub filled : ℕ → List ℕ → Threads → Threads
filled slot payload t = record t { segment = fill slot payload t.segment }

abbrev pub committed : ℕ → Threads → Threads
committed slot t = record t {
  segment = store_commit_pos t.writer.reserved_end t.segment;
  writer = record t.writer { pending = false };
  producer = published;
  sent = t.sent ++ load t.bytes slot t.fixed_item_size ∷ [];
}

abbrev pub consumer_woken : Threads → Threads
consumer_woken t = record t { segment = wake_consumer t.segment; producer = idle }

-- try_read
pub data Reading (t : Threads) : Threads → Type 0 where
  load_read_pos : t.consumer ≡ resting → Reading t (record t { consumer = loaded_front t.read_pos })
  load_commit_pos :
      (read : ℕ)
      → t.consumer ≡ loaded_front read
      → Reading t (record t { consumer = loaded_fronts read t.commit_pos })
  find_empty :
      (read committed : ℕ)
      → t.consumer ≡ loaded_fronts read committed
      → read_from read committed t.segment ≡ none
      → Reading t (record t { consumer = resting })
  find_slot :
      (read committed slot size : ℕ)
      → t.consumer ≡ loaded_fronts read committed
      → read_from read committed t.segment ≡ some (slot, size)
      → Reading t (record t { consumer = viewing slot })

-- A look at the slot; read_advance's fetch_add on read_pos; its bump of read_wake_seq and the wake.
abbrev pub looked : ℕ → Threads → Threads
looked slot t = record t { consumer = viewed slot (load t.bytes slot t.fixed_item_size) }

abbrev pub given_back : List ℕ → Threads → Threads
given_back seen t = record t {
  segment = store_read_pos (add64 t.read_pos (mul64 1 t.fixed_item_size)) t.segment;
  consumer = advanced;
  received = t.received ++ seen ∷ [];
}

abbrev pub producer_woken : Threads → Threads
producer_woken t = record t { segment = wake_producer t.segment; consumer = resting }

-- One access, by either thread. The producer may write to its slot as often as it likes.
pub data Step (t : Threads) : Threads → Type 0 where
  reserving : {t' : Threads} → Reserving t t' → Step t t'
  filling_in :
      (slot : ℕ) (payload : List ℕ)
      → t.producer ≡ filling slot
      → length payload ≤ t.fixed_item_size
      → Step t (filled slot payload t)
  committing : (slot : ℕ) → t.producer ≡ filling slot → Step t (committed slot t)
  waking_consumer : t.producer ≡ published → Step t (consumer_woken t)
  reading : {t' : Threads} → Reading t t' → Step t t'
  looking : (slot : ℕ) → t.consumer ≡ viewing slot → Step t (looked slot t)
  giving_back :
      (slot : ℕ) (seen : List ℕ) → t.consumer ≡ viewed slot seen → Step t (given_back seen t)
  waking_producer : t.consumer ≡ advanced → Step t (producer_woken t)

pub data Reach (start : Threads) : Threads → Type 0 where
  here : Reach start start
  later : {t u : Threads} → Reach start t → Step t u → Reach start u
