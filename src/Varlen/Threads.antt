-- ===== src/Varlen/Threads.antt =====
-- A producer and a consumer on one variable length ring, interleaved: the calls of
-- varlen_writer.hpp and varlen_reader.hpp, one access to the control block at a time. A slot's
-- header and payload are not shared while the positions keep the two sides apart, so a look at a
-- header takes one step, and so does a store of one.
pub mod Invariant
pub mod Stores
pub mod Room
pub mod Producer
pub mod Slots
pub mod Publish
pub mod Consumer
pub mod Reached
pub mod Safety
pub mod Progress
mod Tests
use spscring.Base.{
  ℕ, ◌+◌, ◌%◌, ◌≤◌, ◌<◌, ◌≡◌, ◌≢◌, Bool, true, false, ◌||◌, List, [], ◌∷◌, ◌++◌, length, ltb, ◌==◌,
  if◌then◌else◌, add64, sub64, u32, u64_mod, u32_mod,
}
use spscring.Memory.{store}
use spscring.View.{
  Segment, store_write_pos, store_commit_pos, store_read_pos, wake_consumer, wake_producer,
}
use spscring.Varlen.Header.{MessageMeta, no_meta, load_slot_size, load_payload_size}
use spscring.Varlen.Writer.{VarlenWriter, store_slot, needed_size}
use spscring.Varlen.Reader.{Message, message_at}
use spscring.Varlen.Send.{MetaFits}

-- The arguments of try_reserve.
pub record Request : Type 0 where
  pub payload_size : ℕ
  pub meta : MessageMeta

-- A message with a payload, whose slot size does not wrap, and whose meta fits its fields.
pub record IsMessage (alignment : ℕ) (r : Request) : Type 0 where
  pub nonempty : 0 < r.payload_size
  pub size : r.payload_size + 32 + alignment ≤ u32_mod
  pub meta : MetaFits r.meta

-- Where the producer stands: at the head of try_reserve's loop, with the read_pos that it has
-- loaded, in the padding or in the taking of a slot after its compare-and-swap has won, between a
-- successful try_reserve and commit, or in commit before it wakes the consumer.
pub data ProducerPc : Type 0 where
  idle : ProducerPc
  at_head : (r : Request) (head : ℕ) → ProducerPc
  loaded_read : (r : Request) (head read : ℕ) → ProducerPc
  pad_won : (r : Request) (head : ℕ) → ProducerPc
  pad_stored : (r : Request) (head : ℕ) → ProducerPc
  pad_committed : (r : Request) (new_head : ℕ) → ProducerPc
  slot_won : (r : Request) (head : ℕ) → ProducerPc
  filling : (r : Request) (position : ℕ) → ProducerPc
  published : ProducerPc

-- Where the consumer stands: in read with the positions that it has loaded, at a padding slot, at a
-- message before and after the handler has seen it, or behind a store of read_pos.
pub data ConsumerPc : Type 0 where
  resting : ConsumerPc
  loaded_front : (read : ℕ) → ConsumerPc
  loaded_fronts : (read committed : ℕ) → ConsumerPc
  skipping : (read : ℕ) → ConsumerPc
  showing : (read : ℕ) → ConsumerPc
  shown : (read : ℕ) (x : Message) → ConsumerPc
  advanced : ConsumerPc

-- `sent` are the messages that have been committed, and `received` those that the handler has
-- taken, in order.
pub record Threads : Type 0 where
  pub segment : Segment
  pub open segment use *
  pub writer : VarlenWriter
  pub producer : ProducerPc
  pub consumer : ConsumerPc
  pub sent : List Message
  pub received : List Message

-- What a round of try_reserve's loop goes on to do with the head and the read_pos that it has.
pub data Decision : Type 0 where
  give_up : Decision
  pad : Decision
  take : Decision

unfoldable pub needed : Segment → Request → ℕ
unfolding needed_size
needed s r = needed_size r.payload_size s.data_alignment

unfoldable pub padding : Segment → ℕ → ℕ
padding s head = sub64 s.data_capacity (head % s.data_capacity)

unfoldable pub decide : Segment → Request → ℕ → ℕ → Decision
unfolding needed padding
decide s r head read =
    if ltb s.data_capacity (add64 (sub64 head read) (needed s r))
    then give_up
    else if ltb (padding s head) (needed s r)
    then pad
    else take

-- The stores of the producer.
abbrev pub padding_stored : Request → ℕ → Threads → Threads
padding_stored r head t = record t {
  segment =
      store_slot (head % t.data_capacity)
        (record { slot_size = u32 (padding t.segment head); payload_size = 0; meta = no_meta })
        t.segment;
  producer = pad_stored r head;
}

abbrev pub padding_committed : Request → ℕ → Threads → Threads
padding_committed r head t =
    let new_head = add64 head (padding t.segment head) in
    record t { segment = store_commit_pos new_head t.segment; producer = pad_committed r new_head }

abbrev pub slot_stored : Request → ℕ → Threads → Threads
slot_stored r head t = record t {
  segment =
      store_slot (head % t.data_capacity)
        (record { slot_size = needed t.segment r; payload_size = r.payload_size; meta = r.meta })
        t.segment;
  writer = record t.writer { pending = true; last_position = head };
  producer = filling r head;
}

-- A write of bytes into the payload, from its byte `from` on.
abbrev pub payload_written : ℕ → ℕ → List ℕ → Threads → Threads
payload_written position from bs t = record t {
  segment = record t.segment { bytes = store t.bytes (position % t.data_capacity + 32 + from) bs };
}

abbrev pub committed : ℕ → Threads → Threads
committed position t =
    let at = position % t.data_capacity in
    record t {
      segment = store_commit_pos (add64 position (load_slot_size t.bytes at)) t.segment;
      writer = record t.writer { pending = false };
      producer = published;
      sent = t.sent ++ message_at at t.segment ∷ [];
    }

-- try_reserve once it has loaded write_pos.
pub data Reserving (t : Threads) : Threads → Type 0 where
  load_read_pos :
      (r : Request) (head : ℕ)
      → t.producer ≡ at_head r head
      → Reserving t (record t { producer = loaded_read r head t.read_pos })
  find_full :
      (r : Request) (head read : ℕ)
      → t.producer ≡ loaded_read r head read
      → decide t.segment r head read ≡ give_up
      → Reserving t (record t { producer = idle })
  lose :
      (r : Request) (head read : ℕ)
      → t.producer ≡ loaded_read r head read
      → t.write_pos ≢ head
      → Reserving t (record t { producer = at_head r t.write_pos })
  win_padding :
      (r : Request) (head read : ℕ)
      → t.producer ≡ loaded_read r head read
      → decide t.segment r head read ≡ pad
      → t.write_pos ≡ head
      → t.write_pos + t.data_capacity + t.data_capacity < u64_mod
      → Reserving t (record t {
        segment = store_write_pos (add64 head (padding t.segment head)) t.segment;
        producer = pad_won r head;
      })
  store_padding :
      (r : Request) (head : ℕ) → t.producer ≡ pad_won r head → Reserving t (padding_stored r head t)
  commit_padding :
      (r : Request) (head : ℕ)
      → t.producer ≡ pad_stored r head
      → Reserving t (padding_committed r head t)
  wake_for_padding :
      (r : Request) (new_head : ℕ)
      → t.producer ≡ pad_committed r new_head
      → Reserving t (record t { segment = wake_consumer t.segment; producer = at_head r new_head })
  win_slot :
      (r : Request) (head read : ℕ)
      → t.producer ≡ loaded_read r head read
      → decide t.segment r head read ≡ take
      → t.write_pos ≡ head
      → t.write_pos + t.data_capacity + t.data_capacity < u64_mod
      → Reserving t (record t {
        segment = store_write_pos (add64 head (needed t.segment r)) t.segment;
        producer = slot_won r head;
      })
  store_header :
      (r : Request) (head : ℕ) → t.producer ≡ slot_won r head → Reserving t (slot_stored r head t)

pub data ProducerStep (t : Threads) : Threads → Type 0 where
  load_write_pos :
      (r : Request)
      → t.producer ≡ idle
      → t.writer.pending ≡ false
      → IsMessage t.data_alignment r
      → needed t.segment r ≤ t.data_capacity
      → ProducerStep t (record t { producer = at_head r t.write_pos })
  reserving : {t' : Threads} → Reserving t t' → ProducerStep t t'
  write_payload :
      (r : Request) (position from : ℕ) (bs : List ℕ)
      → t.producer ≡ filling r position
      → from + length bs ≤ r.payload_size
      → ProducerStep t (payload_written position from bs t)
  commit :
      (r : Request) (position : ℕ)
      → t.producer ≡ filling r position
      → ProducerStep t (committed position t)
  wake :
      t.producer ≡ published
      → ProducerStep t (record t { segment = wake_consumer t.segment; producer = idle })

-- The stores of the consumer.
abbrev pub skipped : ℕ → Threads → Threads
skipped read t =
    let size = load_slot_size t.bytes (read % t.data_capacity) in
    record t { segment = store_read_pos (add64 read size) t.segment; consumer = advanced }

abbrev pub taken : ℕ → Message → Threads → Threads
taken read x t =
    let size = load_slot_size t.bytes (read % t.data_capacity) in
    record t {
      segment = store_read_pos (add64 read size) t.segment;
      consumer = advanced;
      received = t.received ++ x ∷ [];
    }

-- Whether read returns at the fronts that it has loaded.
unfoldable pub finds_nothing : Segment → ℕ → ℕ → Bool
finds_nothing s read committed =
    let used = if ltb read committed then sub64 committed read else 0 in
    let slot_size = load_slot_size s.bytes (read % s.data_capacity) in
    used == 0 || slot_size == 0 || ltb used slot_size

-- read up to what the handler answers.
pub data Reading (t : Threads) : Threads → Type 0 where
  load_read_pos : t.consumer ≡ resting → Reading t (record t { consumer = loaded_front t.read_pos })
  load_commit_pos :
      (read : ℕ)
      → t.consumer ≡ loaded_front read
      → Reading t (record t { consumer = loaded_fronts read t.commit_pos })
  find_nothing :
      (read committed : ℕ)
      → t.consumer ≡ loaded_fronts read committed
      → finds_nothing t.segment read committed ≡ true
      → Reading t (record t { consumer = resting })
  find_padding :
      (read committed : ℕ)
      → t.consumer ≡ loaded_fronts read committed
      → finds_nothing t.segment read committed ≡ false
      → load_payload_size t.bytes (read % t.data_capacity) ≡ 0
      → Reading t (record t { consumer = skipping read })
  find_message :
      (read committed : ℕ)
      → t.consumer ≡ loaded_fronts read committed
      → finds_nothing t.segment read committed ≡ false
      → load_payload_size t.bytes (read % t.data_capacity) ≢ 0
      → Reading t (record t { consumer = showing read })
  skip : (read : ℕ) → t.consumer ≡ skipping read → Reading t (skipped read t)
  show :
      (read : ℕ)
      → t.consumer ≡ showing read
      → Reading t
          (record t { consumer = shown read (message_at (read % t.data_capacity) t.segment) })

pub data ConsumerStep (t : Threads) : Threads → Type 0 where
  reading : {t' : Threads} → Reading t t' → ConsumerStep t t'
  decline :
      (read : ℕ) (x : Message)
      → t.consumer ≡ shown read x
      → ConsumerStep t (record t { consumer = resting })
  take : (read : ℕ) (x : Message) → t.consumer ≡ shown read x → ConsumerStep t (taken read x t)
  wake :
      t.consumer ≡ advanced
      → ConsumerStep t (record t { segment = wake_producer t.segment; consumer = resting })

pub data Reach (start : Threads) : Threads → Type 0 where
  here : Reach start start
  by_producer : {t u : Threads} → Reach start t → ProducerStep t u → Reach start u
  by_consumer : {t u : Threads} → Reach start t → ConsumerStep t u → Reach start u
