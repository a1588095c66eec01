-- ===== src/Fixed/Blocking/Invariant.antt =====
-- The invariant of the two sides that block on each other.

use spscring.View.{store_commit_seq, store_read_wake_seq, Segment}
use spscring.Base.{ℕ, ◌+◌, ◌≡◌, ◌≢◌, refl, ap, Bool, not, ltb, ◌==◌, arith}
use spscring.Notify.Waiting.{BumperPc, idle}
use spscring.Notify.Caller.{Line, Caller, bump_counted, caller_woken, outside, inside}
use spscring.Fixed.{FixedWriter}
use spscring.Fixed.Valid.{IsValid, ring_is_full_lem}
use spscring.Fixed.Threads.{ProducerPc, ConsumerPc, resting, advanced, Threads}
use spscring.Fixed.Contents.{contents, published}
use spscring.Fixed.Threads.Invariant.{Inv}
use spscring.Fixed.Threads.Sides.{ConsumerKnows-kept, ProducerKnows-kept}
use spscring.Fixed.Threads.Messages.{SameFronts, SameFronts-IsValid}
use spscring.Fixed.Threads.Safety.{commit-le-write}
use spscring.Fixed.Blocking.{Blocking, has_message, has_room}

-- Inside a call a side has nothing else under way.
abbrev pub ProducerRests : ProducerPc → BumperPc → Caller → Type 0
ProducerRests p b outside = Unit {0}
ProducerRests p b (inside _ _) = (p ≡ ProducerPc.idle) × (b ≡ idle)

abbrev pub ConsumerRests : ConsumerPc → BumperPc → Caller → Type 0
ConsumerRests p b outside = Unit {0}
ConsumerRests p b (inside _ _) = (p ≡ resting) × (b ≡ idle)

pub record ProducerPlace (producer : ProducerPc) (bumper : BumperPc) (call : Caller) : Type 0 where
  pub at_publish : bumper ≡ BumperPc.published → producer ≡ ProducerPc.published
  pub rests : ProducerRests producer bumper call

pub record ConsumerPlace (consumer : ConsumerPc) (bumper : BumperPc) (call : Caller) : Type 0 where
  pub at_advance : bumper ≡ BumperPc.published → consumer ≡ advanced
  pub rests : ConsumerRests consumer bumper call

pub record BlockingInv (timed : Bool) (b : Blocking) : Type 0 where
  pub ring : Inv b.threads
  pub commit_line : Line timed b.commit_seq (has_message b.segment) b.commit_bumper b.consumer_call
  pub read_line : Line timed b.read_wake_seq (has_room b.segment) b.read_bumper b.producer_call
  pub producer_place : ProducerPlace b.producer b.commit_bumper b.producer_call
  pub consumer_place : ConsumerPlace b.consumer b.read_bumper b.consumer_call

-- A side that has something to do at a word is outside.
pub producer_busy :
    (p p' : ProducerPc) (b b' : BumperPc) (c : Caller)
    → ProducerRests p b c
    → b ≢ idle
    → ProducerRests p' b' c
producer_busy p p' b b' outside r h = tt
producer_busy p p' b b' (inside w n) (e, f) h = absurd (h f)

pub consumer_busy :
    (p p' : ConsumerPc) (b b' : BumperPc) (c : Caller)
    → ConsumerRests p b c
    → b ≢ idle
    → ConsumerRests p' b' c
consumer_busy p p' b b' outside r h = tt
consumer_busy p p' b b' (inside w n) (e, f) h = absurd (h f)

-- A bump or a wake at the word of the other side leaves that side where it is.
pub ProducerPlace-counted :
    (p : ProducerPc) (b : BumperPc) (c : Caller)
    → ProducerPlace p b c
    → ProducerPlace p b (bump_counted c)
unfolding bump_counted
ProducerPlace-counted p b outside k = k
ProducerPlace-counted p b (inside w n) k = record { at_publish = k.at_publish; rests = k.rests }

pub ProducerPlace-woken :
    (p : ProducerPc) (b : BumperPc) (c : Caller)
    → ProducerPlace p b c
    → ProducerPlace p b (caller_woken c)
unfolding caller_woken
ProducerPlace-woken p b outside k = k
ProducerPlace-woken p b (inside w n) k = record { at_publish = k.at_publish; rests = k.rests }

pub ConsumerPlace-counted :
    (p : ConsumerPc) (b : BumperPc) (c : Caller)
    → ConsumerPlace p b c
    → ConsumerPlace p b (bump_counted c)
unfolding bump_counted
ConsumerPlace-counted p b outside k = k
ConsumerPlace-counted p b (inside w n) k = record { at_advance = k.at_advance; rests = k.rests }

pub ConsumerPlace-woken :
    (p : ConsumerPc) (b : BumperPc) (c : Caller)
    → ConsumerPlace p b c
    → ConsumerPlace p b (caller_woken c)
unfolding caller_woken
ConsumerPlace-woken p b outside k = k
ConsumerPlace-woken p b (inside w n) k = record { at_advance = k.at_advance; rests = k.rests }

pub has_message_lem : (s : Segment) → has_message s ≡ ltb s.read_pos s.commit_pos
unfolding has_message
has_message_lem s = ground arith

pub has_room_lem :
    (w : FixedWriter) (s : Segment)
    → IsValid w s
    → has_room s ≡ not (s.write_pos == s.read_pos + s.data_capacity)
unfolding has_room
has_room_lem w s v = ap not (
    ring_is_full_lem s.data_capacity s.write_pos s.read_pos v.room
      (omega (arith, v.read_le, commit-le-write w s v)) v.write_le)

-- A change of a word alone leaves the ring as it is.
module _ (w : ℕ) (t : Threads) (inv : Inv t) where
  open inv use {valid, producer_knows, consumer_knows, in_order}

  pub store_commit_seq-Inv : Inv (record t { segment = store_commit_seq w t.segment })
  unfolding store_commit_seq contents published
  store_commit_seq-Inv =
      let same : SameFronts t.segment (store_commit_seq w t.segment) = record {
        capacity = refl;
        item = refl;
        read = refl;
        commit = refl;
        write = refl;
      } in
      record {
        valid = SameFronts-IsValid t.writer t.segment (store_commit_seq w t.segment) same valid;
        producer_knows =
            ProducerKnows-kept t.writer t.segment (store_commit_seq w t.segment) t.producer
              (record {
                capacity = refl;
                item = refl;
                write = refl;
                commit = refl;
                read = omega arith;
              })
              producer_knows;
        consumer_knows =
            ConsumerKnows-kept t.segment (store_commit_seq w t.segment) t.consumer
              (record { capacity = refl; read = refl; commit = omega arith; message = λ _. refl })
              consumer_knows;
        in_order = in_order;
      }

  pub store_read_wake_seq-Inv : Inv (record t { segment = store_read_wake_seq w t.segment })
  unfolding store_read_wake_seq contents published
  store_read_wake_seq-Inv =
      let same : SameFronts t.segment (store_read_wake_seq w t.segment) = record {
        capacity = refl;
        item = refl;
        read = refl;
        commit = refl;
        write = refl;
      } in
      record {
        valid = SameFronts-IsValid t.writer t.segment (store_read_wake_seq w t.segment) same valid;
        producer_knows =
            ProducerKnows-kept t.writer t.segment (store_read_wake_seq w t.segment) t.producer
              (record {
                capacity = refl;
                item = refl;
                write = refl;
                commit = refl;
                read = omega arith;
              })
              producer_knows;
        consumer_knows =
            ConsumerKnows-kept t.segment (store_read_wake_seq w t.segment) t.consumer
              (record { capacity = refl; read = refl; commit = omega arith; message = λ _. refl })
              consumer_knows;
        in_order = in_order;
      }
