-- ===== src/Channel/Words.antt =====
-- What the methods of the fixed ring leave of the notify words while nobody registers on them.

use spscring.Base.{ℕ, ◌+◌, ◌^◌, ◌<◌, ◌≡◌, false, List, arith}
use spscring.View.{Segment, wake_consumer, wake_producer}
use spscring.Notify.{bump_notify_word}
use spscring.Notify.Word.{has_waiter_iff}
use spscring.Fixed.{FixedWriter, reserve_from, fill}

-- A word below 2^31 has no waiter, and goes up by one.
bump-silent :
    (word : ℕ)
    → word < 2 ^ 31
    → ((bump_notify_word word).0 ≡ false) × ((bump_notify_word word).1 ≡ word + 1)
unfolding bump_notify_word
bump-silent word small = ground (arith, has_waiter_iff word)

module _ (s : Segment) where
  pub wake_consumer-silent :
      s.commit_seq < 2 ^ 31
      → ((wake_consumer s).commit_seq ≡ s.commit_seq + 1) × ((wake_consumer s).wakes ≡ s.wakes)
  unfolding wake_consumer
  wake_consumer-silent small = ground (arith, bump-silent s.commit_seq small)

  pub wake_producer-silent :
      s.read_wake_seq < 2 ^ 31
      → ((wake_producer s).read_wake_seq ≡ s.read_wake_seq + 1)
        × ((wake_producer s).wakes ≡ s.wakes)
  unfolding wake_producer
  wake_producer-silent small = ground (arith, bump-silent s.read_wake_seq small)

-- The two words and the wakes.
pub record SameWords (s t : Segment) : Type 0 where
  pub commit : t.commit_seq ≡ s.commit_seq
  pub read : t.read_wake_seq ≡ s.read_wake_seq
  pub wakes : t.wakes ≡ s.wakes

pub fill-SameWords : (slot : ℕ) (payload : List ℕ) (s : Segment) → SameWords s (fill slot payload s)
unfolding fill
fill-SameWords slot payload s = ground arith

pub reserve_from-SameWords :
    (write read : ℕ) (w : FixedWriter) (s : Segment) → SameWords s (reserve_from write read w s).2
unfolding reserve_from
reserve_from-SameWords write read w s = ground arith
