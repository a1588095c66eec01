-- ===== src/Fixed/Blocking/Safety.antt =====
-- What holds in every state that the two blocking sides reach.
use mathlib.Core.Path.{subst}
use spscring.Base.{ℕ, ◌+◌, ◌^◌, ◌≤◌, ◌<◌, ◌≡◌, ◌⊎◌, Bool, true, ◌++◌, length, arith}
use spscring.Notify.{bump_notify_word}
use spscring.Notify.Waiting.{asleep, published, bumped}
use spscring.Notify.Caller.{inside, Watched, asleep-Watched}
use spscring.Fixed.{item_count}
use spscring.Fixed.Contents.{contents}
use native.Mathlib.Decide.{dec_lt}
use spscring.Fixed.Threads.Invariant.{producer_at}
use spscring.Fixed.Threads.Safety.{length-contents-le}
use spscring.Fixed.Blocking.{Blocking, has_message, has_room, produce, consume, Reach, here, later}
use spscring.Fixed.Blocking.Invariant.{
  BlockingInv, ProducerRests, ConsumerRests, has_message_lem, has_room_lem,
}
use spscring.Fixed.Blocking.Producer.{ProducerStep-Inv}
use spscring.Fixed.Blocking.Consumer.{ConsumerStep-Inv}

pub Reach-BlockingInv :
    {timed : Bool} {start b : Blocking}
    → BlockingInv timed start
    → Reach timed start b
    → BlockingInv timed b
Reach-BlockingInv inv here = inv
Reach-BlockingInv {timed} inv (later {b} r (produce m)) =
    ProducerStep-Inv timed b (Reach-BlockingInv inv r) m
Reach-BlockingInv {timed} inv (later {b} r (consume m)) =
    ConsumerStep-Inv timed b (Reach-BlockingInv inv r) m

module _ {timed : Bool} {start b : Blocking} (inv : BlockingInv timed start)
    (r : Reach timed start b) where
  -- However the accesses of the two sides and their waits fall while the 64-bit positions last, the
  -- messages received, and then those in the ring, are the messages sent, in order and each once;
  -- the ring holds no more than its slots.
  pub blocking_in_order :
      (b.received ++ contents b.segment ≡ b.sent)
      × (length (contents b.segment) ≤ item_count b.segment)
  blocking_in_order =
      let i = Reach-BlockingInv inv r in (i.ring.in_order, length-contents-le b.threads i.ring)

  -- A consumer that sleeps although a message is in the ring is about to be woken.
  pub consumer_asleep :
      (registered : Bool) (n : ℕ)
      → b.consumer_call ≡ inside (asleep registered) n
      → n < 2 ^ 31
      → b.read_pos < b.commit_pos
      → ((b.commit_bumper ≡ published) × ((bump_notify_word b.commit_seq).0 ≡ true))
        ⊎ (b.commit_bumper ≡ bumped true)
  consumer_asleep registered n e few some =
      let i = Reach-BlockingInv inv r in
      asleep-Watched timed (has_message b.segment) b.commit_seq
        (subst (Watched timed b.commit_seq (has_message b.segment) b.commit_bumper) e
          i.commit_line.watched)
        few (ground (arith, has_message_lem b.segment))

  -- So is a producer that sleeps although the ring has room.
  pub producer_asleep :
      (registered : Bool) (n : ℕ)
      → b.producer_call ≡ inside (asleep registered) n
      → n < 2 ^ 31
      → b.write_pos < b.read_pos + b.data_capacity
      → ((b.read_bumper ≡ published) × ((bump_notify_word b.read_wake_seq).0 ≡ true))
        ⊎ (b.read_bumper ≡ bumped true)
  producer_asleep registered n e few room =
      let i = Reach-BlockingInv inv r in
      asleep-Watched timed (has_room b.segment) b.read_wake_seq
        (subst (Watched timed b.read_wake_seq (has_room b.segment) b.read_bumper) e
          i.read_line.watched)
        few (ground (arith, has_room_lem b.writer b.segment i.ring.valid))

  -- Under the same conditions, and with fewer than 2^31 bumps since either call began, the two sides
  -- do not sleep at once.
  pub not_both_asleep :
      (p q : Bool) (m n : ℕ)
      → m < 2 ^ 31
      → n < 2 ^ 31
      → ¬ ((b.producer_call ≡ inside (asleep p) m) × (b.consumer_call ≡ inside (asleep q) n))
  not_both_asleep p q m n few_m few_n (e, f) =
      let i = Reach-BlockingInv inv r in
      let v = i.ring.valid in
      let (at_idle, no_bump) =
        subst (ProducerRests b.producer b.commit_bumper) e i.producer_place.rests in
      let (at_rest, no_advance) =
        subst (ConsumerRests b.consumer b.read_bumper) f i.consumer_place.rests in
      let free = v.free (producer_at b.threads i.ring at_idle) in
      elim (dec_lt b.read_pos b.commit_pos) [
        | yes some ↦ ground (arith, consumer_asleep q n f few_n some, no_bump)
        | no none ↦
            let room : b.write_pos < b.read_pos + b.data_capacity =
              omega (arith, free, v.read_le, v.room) in
            ground (arith, producer_asleep p m e few_m room, no_advance)
      ]
