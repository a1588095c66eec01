-- ===== src/Fixed/Blocking.antt =====
-- A producer that blocks while the ring is full, on read_wake_seq, and a consumer that blocks while
-- it is empty, on commit_seq: the calls of fixed_writer.hpp, fixed_reader.hpp and notify_word.hpp,
-- one shared access at a time. The bump of a word and the wake behind it are two steps; `wakes` has
-- its entry with the bump.
pub mod Invariant
pub mod Producer
pub mod Consumer
pub mod Safety
pub mod Progress
mod Tests
use spscring.Base.{ℕ, ◌≤◌, ◌≡◌, Bool, true, false, not, List, Option, none, some, length}
use spscring.Notify.{bump_notify_word}
use spscring.Notify.Waiting.{WaiterPc, top, returned, BumperPc, idle, published, bumped, Wait}
use spscring.Notify.Caller.{Caller, outside, inside, caller_woken, bump_counted}
use spscring.View.{Segment, store_commit_seq, store_read_wake_seq}
use spscring.Fixed.{ring_is_full, try_read}
use spscring.Fixed.Threads.{
  ProducerPc, filling, ConsumerPc, resting, viewing, viewed, Threads, Reserving, Reading, filled,
  committed, consumer_woken, looked, given_back, producer_woken,
}

-- `commit_bumper` and `read_bumper` tell what commit and read_advance have left to do at a word.
pub record Blocking : Type 0 where
  pub threads : Threads
  pub open threads use *
  pub producer_call : Caller
  pub consumer_call : Caller
  pub commit_bumper : BumperPc
  pub read_bumper : BumperPc

-- The consumer waits while `try_read` finds nothing, the producer while the ring is full.
unfoldable pub has_message : Segment → Bool
unfolding try_read
has_message s = elim (try_read s) [ none ↦ false | some _ ↦ true ]

unfoldable pub has_room : Segment → Bool
unfolding ring_is_full
has_room s = not (ring_is_full s.data_capacity s.write_pos s.read_pos)

-- try_reserve, the write into the slot, and commit up to its store to commit_pos; then the bump of
-- commit_seq with its test, and atomic_notify_all.
pub data ProducerStep (timed : Bool) (b : Blocking) : Blocking → Type 0 where
  reserving :
      {t : Threads}
      → b.producer_call ≡ outside
      → b.commit_bumper ≡ idle
      → Reserving b.threads t
      → ProducerStep timed b (record b { threads = t })
  filling_in :
      (slot : ℕ) (payload : List ℕ)
      → b.producer_call ≡ outside
      → b.producer ≡ filling slot
      → length payload ≤ b.fixed_item_size
      → ProducerStep timed b (record b { threads = filled slot payload b.threads })
  committing :
      (slot : ℕ)
      → b.producer_call ≡ outside
      → b.commit_bumper ≡ idle
      → b.producer ≡ filling slot
      → ProducerStep timed b
          (record b { threads = committed slot b.threads; commit_bumper = published })
  bumping :
      b.commit_bumper ≡ published
      → ProducerStep timed b (record b {
        threads = consumer_woken b.threads;
        consumer_call = bump_counted b.consumer_call;
        commit_bumper = bumped (bump_notify_word b.commit_seq).0;
      })
  notifying :
      b.commit_bumper ≡ bumped true
      → ProducerStep timed b
          (record b { consumer_call = caller_woken b.consumer_call; commit_bumper = idle })
  nobody_waits :
      b.commit_bumper ≡ bumped false → ProducerStep timed b (record b { commit_bumper = idle })
  start_waiting :
      b.producer_call ≡ outside
      → b.commit_bumper ≡ idle
      → b.producer ≡ ProducerPc.idle
      → ProducerStep timed b (record b { producer_call = inside (top false) 0 })
  waiting :
      {w n : ℕ} {p q : WaiterPc}
      → b.producer_call ≡ inside p n
      → Wait timed b.read_wake_seq (has_room b.segment) p w q
      → ProducerStep timed b (record b {
        threads = record b.threads { segment = store_read_wake_seq w b.segment };
        producer_call = inside q n;
      })
  stop_waiting :
      {n : ℕ} {result : Bool}
      → b.producer_call ≡ inside (returned result) n
      → ProducerStep timed b (record b { producer_call = outside })

-- try_read, a look at the slot, and read_advance up to its store to read_pos; then the bump of
-- read_wake_seq with its test, and atomic_notify_all.
pub data ConsumerStep (timed : Bool) (b : Blocking) : Blocking → Type 0 where
  reading :
      {t : Threads}
      → b.consumer_call ≡ outside
      → b.read_bumper ≡ idle
      → Reading b.threads t
      → ConsumerStep timed b (record b { threads = t })
  looking :
      (slot : ℕ)
      → b.consumer_call ≡ outside
      → b.consumer ≡ viewing slot
      → ConsumerStep timed b (record b { threads = looked slot b.threads })
  giving_back :
      (slot : ℕ) (seen : List ℕ)
      → b.consumer_call ≡ outside
      → b.read_bumper ≡ idle
      → b.consumer ≡ viewed slot seen
      → ConsumerStep timed b
          (record b { threads = given_back seen b.threads; read_bumper = published })
  bumping :
      b.read_bumper ≡ published
      → ConsumerStep timed b (record b {
        threads = producer_woken b.threads;
        producer_call = bump_counted b.producer_call;
        read_bumper = bumped (bump_notify_word b.read_wake_seq).0;
      })
  notifying :
      b.read_bumper ≡ bumped true
      → ConsumerStep timed b
          (record b { producer_call = caller_woken b.producer_call; read_bumper = idle })
  nobody_waits :
      b.read_bumper ≡ bumped false → ConsumerStep timed b (record b { read_bumper = idle })
  start_waiting :
      b.consumer_call ≡ outside
      → b.read_bumper ≡ idle
      → b.consumer ≡ resting
      → ConsumerStep timed b (record b { consumer_call = inside (top false) 0 })
  waiting :
      {w n : ℕ} {p q : WaiterPc}
      → b.consumer_call ≡ inside p n
      → Wait timed b.commit_seq (has_message b.segment) p w q
      → ConsumerStep timed b (record b {
        threads = record b.threads { segment = store_commit_seq w b.segment };
        consumer_call = inside q n;
      })
  stop_waiting :
      {n : ℕ} {result : Bool}
      → b.consumer_call ≡ inside (returned result) n
      → ConsumerStep timed b (record b { consumer_call = outside })

-- Both sides use the timed wait, or both the other.
pub data Step (timed : Bool) (b : Blocking) : Blocking → Type 0 where
  produce : {c : Blocking} → ProducerStep timed b c → Step timed b c
  consume : {c : Blocking} → ConsumerStep timed b c → Step timed b c

pub data Reach (timed : Bool) (start : Blocking) : Blocking → Type 0 where
  here : Reach timed start start
  later : {b c : Blocking} → Reach timed start b → Step timed b c → Reach timed start c
