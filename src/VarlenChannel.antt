-- ===== src/VarlenChannel.antt =====
-- examples/thread_channel.cpp, run_varlen_channel: a producer that sends messages of 1 to 31 bytes
-- over a variable length ring, numbered in their user_data, and a consumer in another thread that
-- checks the numbers. The number of messages, kVarMessages, is a parameter. A wait on a notify word
-- touches nothing that the two share and may end at any time, so it takes no step.
pub mod Invariant
pub mod Sending
pub mod Draining
pub mod Outcome
mod Tests
use spscring.Base.{
  ℕ, zero, suc, ◌+◌, ◌%◌, ◌≤◌, ◌<◌, ◌≡◌, ◌≢◌, ◌⊎◌, Bool, true, false, List, [], ◌∷◌, length, ◌==◌,
  if◌then◌else◌,
}
use spscring.Memory.{Memory}
use spscring.Control.{blank, varlen, init_control_block}
use spscring.View
use spscring.Varlen.Header.{MessageMeta}
use spscring.Varlen.Writer.{varlen_writer}
use spscring.Varlen.Reader.{Message}
use spscring.Varlen.Threads.{
  Request, ProducerPc, idle, at_head, filling, published, ConsumerPc, resting, loaded_fronts, shown,
  advanced, Threads, needed, Reserving, Reading, payload_written, committed, taken,
}

abbrev pub var_capacity : ℕ
var_capacity = 4096

-- The size of the consumer's buffer.
abbrev pub buffer_size : ℕ
buffer_size = 512

-- The length and the meta of message i.
abbrev pub request_of : ℕ → Request
request_of i = record {
  payload_size = 1 + i % 31;
  meta = record { user_data = i; timestamp_ns = 0; schema_id = 0; flags = 0 };
}

-- The n bytes that std::memset writes.
abbrev pub memset : ℕ → ℕ → List ℕ
memset value zero = []
memset value (suc n) = value ∷ memset value n

abbrev pub payload_of : ℕ → List ℕ
payload_of i = memset (97 + i % 26) (1 + i % 31)

-- Where the consumer's loop stands: in read, behind a read that has returned false or true, or
-- over.
pub data ConsumerLoop : Type 0 where
  draining : ConsumerLoop
  found_nothing : ConsumerLoop
  got_message : ConsumerLoop
  finished : ConsumerLoop

-- `filled` tells whether the producer has written the payload of the slot that it has reserved;
-- `broken` whether it has left its loop on an unexpected status;
-- `user_data` is that of the meta that the consumer's last read has copied out.
pub record Channel : Type 0 where
  pub threads : Threads
  pub i : ℕ
  pub filled : Bool
  pub broken : Bool
  pub producer_done : Bool
  pub drained : ℕ
  pub user_data : ℕ
  pub mismatches : ℕ
  pub loop : ConsumerLoop

-- The arena's bytes are what the allocation has left there.
unfoldable pub start : Memory → Channel
unfolding init_control_block
start bytes = record {
  threads = record {
    segment = record {
      header = (init_control_block blank var_capacity varlen 8 0).1;
      bytes = bytes;
      wakes = [];
    };
    writer = varlen_writer;
    producer = idle;
    consumer = resting;
    sent = [];
    received = [];
  };
  i = 0;
  filled = false;
  broken = false;
  producer_done = false;
  drained = 0;
  user_data = 0;
  mismatches = 0;
  loop = draining;
}

-- try_reserve returns pending_commit or message_too_large before it touches the ring: the producer
-- then breaks off. When its loop is over it sets producer_done.
pub data Step (messages : ℕ) (c : Channel) : Channel → Type 0 where
  begin_reserve :
      c.i < messages
      → c.threads.producer ≡ idle
      → c.broken ≡ false
      → c.threads.writer.pending ≡ false
      → needed c.threads.segment (request_of c.i) ≤ c.threads.data_capacity
      → Step messages c (record c {
        threads = record c.threads { producer = at_head (request_of c.i) c.threads.write_pos };
      })
  break_off :
      c.i < messages
      → c.threads.producer ≡ idle
      → c.broken ≡ false
      → (c.threads.writer.pending ≡ true)
        ⊎ (c.threads.data_capacity < needed c.threads.segment (request_of c.i))
      → Step messages c (record c { broken = true })
  reserve : {t : Threads} → Reserving c.threads t → Step messages c (record c { threads = t })
  fill :
      (r : Request) (position : ℕ)
      → c.threads.producer ≡ filling r position
      → c.filled ≡ false
      → Step messages c (record c {
        threads = payload_written position 0 (payload_of c.i) c.threads;
        filled = true;
      })
  commit :
      (r : Request) (position : ℕ)
      → c.threads.producer ≡ filling r position
      → c.filled ≡ true
      → Step messages c (record c { threads = committed position c.threads; filled = false })
  wake_consumer :
      c.threads.producer ≡ published
      → Step messages c (record c {
        threads = record c.threads {
          segment = View.wake_consumer c.threads.segment;
          producer = idle;
        };
        i = c.i + 1;
      })
  finish_producing :
      c.threads.producer ≡ idle
      → (messages ≤ c.i) ⊎ (c.broken ≡ true)
      → Step messages c (record c { producer_done = true })
  read :
      {t : Threads}
      → c.loop ≡ draining
      → Reading c.threads t
      → t.consumer ≢ resting
      → Step messages c (record c { threads = t })
  read_nothing :
      {t : Threads}
      → c.loop ≡ draining
      → Reading c.threads t
      → t.consumer ≡ resting
      → Step messages c (record c { threads = t; loop = found_nothing })
  take :
      (at : ℕ) (x : Message)
      → c.loop ≡ draining
      → c.threads.consumer ≡ shown at x
      → length x.payload ≤ buffer_size
      → Step messages c (record c {
        threads = taken at x c.threads;
        user_data = x.meta.user_data;
        loop = got_message;
      })
  decline :
      (at : ℕ) (x : Message)
      → c.loop ≡ draining
      → c.threads.consumer ≡ shown at x
      → buffer_size < length x.payload
      → Step messages c (record c {
        threads = record c.threads { consumer = resting };
        user_data = x.meta.user_data;
        loop = found_nothing;
      })
  wake_producer :
      c.threads.consumer ≡ advanced
      → Step messages c (record c {
        threads = record c.threads {
          segment = View.wake_producer c.threads.segment;
          consumer = resting;
        };
      })
  check_number :
      c.loop ≡ got_message
      → c.threads.consumer ≡ resting
      → Step messages c (record c {
        mismatches = if c.user_data == c.drained then c.mismatches else c.mismatches + 1;
        drained = c.drained + 1;
        loop = draining;
      })
  see_done :
      c.loop ≡ found_nothing
      → c.producer_done ≡ true
      → Step messages c (record c { loop = finished })
  wait :
      c.loop ≡ found_nothing
      → c.producer_done ≡ false
      → Step messages c (record c { loop = draining })

pub data Reach (messages : ℕ) (bytes : Memory) : Channel → Type 0 where
  here : Reach messages bytes (start bytes)
  later : {c d : Channel} → Reach messages bytes c → Step messages c d → Reach messages bytes d
