-- ===== src/Channel.antt =====
-- examples/thread_channel.cpp, run_fixed_channel: a producer that sends numbered frames over a fixed
-- ring, and a consumer in another thread that checks the numbers. The number of messages,
-- kFixedMessages, is a parameter. A wait on a notify word touches nothing that the two share and
-- may end at any time, so it takes no step.
pub mod Numbers
pub mod Invariant
pub mod Producer
pub mod Consumer
pub mod Outcome
pub mod Words
pub mod Silence
mod Tests
use spscring.Base.{
  ℕ, ◌+◌, ◌≤◌, ◌<◌, ◌≡◌, Bool, true, false, List, [], ◌∷◌, take, ◌==◌, if◌then◌else◌, ◌*◌,
}
use spscring.Memory.{Memory, load}
use spscring.Control.{ControlBlock, blank, fixed, init_control_block}
use spscring.View.{Segment}
use spscring.Varlen.Header.{to_bytes, from_bytes}
use spscring.Fixed.Threads.{
  ProducerPc, idle, filling, published, ConsumerPc, resting, loaded_fronts, viewing, viewed,
  advanced, Threads, Reserving, Reading, filled, committed, consumer_woken, looked, given_back,
  producer_woken,
}

abbrev pub frame_size : ℕ
frame_size = 64

abbrev pub frame_count : ℕ
frame_count = 16

-- Where the consumer's loop stands: in try_read or with a slot, behind a try_read that has found
-- nothing, or over.
pub data ConsumerLoop : Type 0 where
  draining : ConsumerLoop
  found_nothing : ConsumerLoop
  finished : ConsumerLoop

-- `tagged` tells whether the producer has written the tag into the slot that it has reserved.
pub record Channel : Type 0 where
  pub threads : Threads
  pub i : ℕ
  pub tagged : Bool
  pub producer_done : Bool
  pub drained : ℕ
  pub mismatches : ℕ
  pub loop : ConsumerLoop

-- The arena's bytes are what the allocation has left there.
unfoldable pub start : Memory → Channel
unfolding init_control_block
start bytes = record {
  threads = record {
    segment = record {
      header = (init_control_block blank (frame_size * frame_count) fixed frame_size frame_size).1;
      bytes = bytes;
      wakes = [];
    };
    writer = record { reserved_end = 0; pending = false };
    producer = idle;
    consumer = resting;
    sent = [];
    received = [];
  };
  i = 0;
  tagged = false;
  producer_done = false;
  drained = 0;
  mismatches = 0;
  loop = draining;
}

-- The number in the first eight bytes of a frame.
unfoldable pub tag_of : List ℕ → ℕ
unfolding from_bytes
tag_of frame = from_bytes (take 8 frame)

-- The consumer's loop after an access of try_read.
abbrev pub after_read : ConsumerPc → ConsumerPc → ConsumerLoop
after_read (loaded_fronts read committed) resting = found_nothing
after_read _ _ = draining

pub data Step (messages : ℕ) (c : Channel) : Channel → Type 0 where
  reserve :
      {t : Threads}
      → c.i < messages
      → Reserving c.threads t
      → Step messages c (record c { threads = t })
  write_tag :
      (slot : ℕ)
      → c.threads.producer ≡ filling slot
      → c.tagged ≡ false
      → Step messages c
          (record c { threads = filled slot (to_bytes 8 c.i) c.threads; tagged = true })
  commit :
      (slot : ℕ)
      → c.threads.producer ≡ filling slot
      → c.tagged ≡ true
      → Step messages c (record c { threads = committed slot c.threads; tagged = false })
  wake_consumer :
      c.threads.producer ≡ published
      → Step messages c (record c { threads = consumer_woken c.threads; i = c.i + 1 })
  finish_producing :
      c.threads.producer ≡ idle
      → messages ≤ c.i
      → Step messages c (record c { producer_done = true })
  try_read :
      {t : Threads}
      → c.loop ≡ draining
      → Reading c.threads t
      → Step messages c (record c { threads = t; loop = after_read c.threads.consumer t.consumer })
  check_tag :
      (slot : ℕ)
      → c.threads.consumer ≡ viewing slot
      → Step messages c (record c {
        threads = looked slot c.threads;
        mismatches =
            if tag_of (load c.threads.bytes slot c.threads.fixed_item_size) == c.drained
            then c.mismatches
            else c.mismatches + 1;
        drained = c.drained + 1;
      })
  give_back :
      (slot : ℕ) (seen : List ℕ)
      → c.threads.consumer ≡ viewed slot seen
      → Step messages c (record c { threads = given_back seen c.threads })
  wake_producer :
      c.threads.consumer ≡ advanced
      → Step messages c (record c { threads = producer_woken c.threads })
  see_done :
      c.loop ≡ found_nothing
      → c.producer_done ≡ true
      → Step messages c (record c { loop = finished })
  wait :
      c.loop ≡ found_nothing
      → c.producer_done ≡ false
      → Step messages c (record c { loop = draining })

pub data Reach (messages : ℕ) (bytes : Memory) : Channel → Type 0 where
  here : Reach messages bytes (start bytes)
  later : {c d : Channel} → Reach messages bytes c → Step messages c d → Reach messages bytes d
