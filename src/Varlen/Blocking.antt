-- ===== src/Varlen/Blocking.antt =====
-- A consumer of a variable length ring that blocks on commit_seq while its read finds nothing, beside
-- a producer that does not block: the calls of varlen_writer.hpp, varlen_reader.hpp and
-- notify_word.hpp, one shared access at a time. The bump of commit_seq and the wake behind it are two
-- steps, also where the producer commits padding; `wakes` has its entry with the bump.
pub mod Invariant
pub mod Moves
pub mod Safety
mod Tests
use spscring.Base.{ℕ, ◌≡◌, Bool, true, false, not}
use spscring.Notify.{bump_notify_word}
use spscring.Notify.Waiting.{WaiterPc, top, returned, BumperPc, idle, published, bumped, Wait}
use spscring.Notify.Caller.{Caller, outside, inside, caller_woken, bump_counted}
use spscring.View.{Segment, wake_consumer, store_commit_seq}
use spscring.Varlen.Threads.{
  Request, ProducerPc, at_head, pad_stored, pad_committed, filling, resting, Threads, ProducerStep,
  ConsumerStep, padding_committed, committed, finds_nothing,
}

-- `bumper` tells what the producer has left to do at commit_seq.
pub record Blocking : Type 0 where
  pub threads : Threads
  pub open threads use *
  pub call : Caller
  pub bumper : BumperPc

-- The consumer waits while read finds nothing at the fronts.
unfoldable pub has_slot : Segment → Bool
unfolding finds_nothing
has_slot s = not (finds_nothing s s.read_pos s.commit_pos)

-- A step of the producer that leaves commit_pos and commit_seq alone; a store to commit_pos, for
-- padding or for a message; the bump of commit_seq behind it, with its test; atomic_notify_all.
pub data ProducerMove (b : Blocking) : Blocking → Type 0 where
  aside :
      {t : Threads}
      → b.bumper ≡ idle
      → ProducerStep b.threads t
      → t.commit_pos ≡ b.commit_pos
      → t.commit_seq ≡ b.commit_seq
      → ProducerMove b (record b { threads = t })
  commit_padding :
      (r : Request) (head : ℕ)
      → b.bumper ≡ idle
      → b.producer ≡ pad_stored r head
      → ProducerMove b
          (record b { threads = padding_committed r head b.threads; bumper = published })
  commit :
      (r : Request) (position : ℕ)
      → b.bumper ≡ idle
      → b.producer ≡ filling r position
      → ProducerMove b (record b { threads = committed position b.threads; bumper = published })
  bump_for_padding :
      (r : Request) (new_head : ℕ)
      → b.bumper ≡ published
      → b.producer ≡ pad_committed r new_head
      → ProducerMove b (record b {
        threads = record b.threads {
          segment = wake_consumer b.segment;
          producer = at_head r new_head;
        };
        call = bump_counted b.call;
        bumper = bumped (bump_notify_word b.commit_seq).0;
      })
  bump :
      b.bumper ≡ published
      → b.producer ≡ ProducerPc.published
      → ProducerMove b (record b {
        threads = record b.threads {
          segment = wake_consumer b.segment;
          producer = ProducerPc.idle;
        };
        call = bump_counted b.call;
        bumper = bumped (bump_notify_word b.commit_seq).0;
      })
  notify :
      b.bumper ≡ bumped true
      → ProducerMove b (record b { call = caller_woken b.call; bumper = idle })
  nobody_waits : b.bumper ≡ bumped false → ProducerMove b (record b { bumper = idle })

-- A step of read, outside the wait; the wait.
pub data ConsumerMove (timed : Bool) (b : Blocking) : Blocking → Type 0 where
  reading :
      {t : Threads}
      → b.call ≡ outside
      → ConsumerStep b.threads t
      → ConsumerMove timed b (record b { threads = t })
  start_waiting :
      b.call ≡ outside
      → b.consumer ≡ resting
      → ConsumerMove timed b (record b { call = inside (top false) 0 })
  waiting :
      {w n : ℕ} {p q : WaiterPc}
      → b.call ≡ inside p n
      → Wait timed b.commit_seq (has_slot b.segment) p w q
      → ConsumerMove timed b (record b {
        threads = record b.threads { segment = store_commit_seq w b.segment };
        call = inside q n;
      })
  stop_waiting :
      {n : ℕ} {result : Bool}
      → b.call ≡ inside (returned result) n
      → ConsumerMove timed b (record b { call = outside })

pub data Reach (timed : Bool) (start : Blocking) : Blocking → Type 0 where
  here : Reach timed start start
  by_producer : {b c : Blocking} → Reach timed start b → ProducerMove b c → Reach timed start c
  by_consumer :
      {b c : Blocking} → Reach timed start b → ConsumerMove timed b c → Reach timed start c
