-- ===== src/VarlenChannel/Outcome.antt =====
-- What the consumer of the channel counts.

use spscring.Base.{ℕ, ◌+◌, ◌<◌, ◌≡◌, refl, ap, List, length, length-append, u64_mod, arith, false}
use spscring.Memory.{Memory}
use spscring.Varlen.Reader.{Message}
use spscring.Varlen.Send.{Holds}
use spscring.View
use spscring.Varlen.Threads.{
  ProducerPc, ConsumerPc, at_head, loaded_read, pad_won, pad_stored, pad_committed, slot_won,
  filling,
}
use spscring.Varlen.Threads.Reached.{Reserving-Inv, Reading-Inv}
use spscring.Varlen.Threads.Consumer
use spscring.VarlenChannel.Sending
use spscring.VarlenChannel.Draining
use spscring.VarlenChannel.{
  Channel, draining, found_nothing, finished, Step, begin_reserve, break_off, reserve, fill, commit,
  wake_consumer, finish_producing, read, read_nothing, take, decline, wake_producer, check_number,
  see_done, wait, Reach, here, later,
}
use spscring.VarlenChannel.Invariant.{
  ProducerCounts, ChannelInv, Reserving-Counts, Reserving-lists, Reading-lists, received_at,
}

module _ (messages : ℕ) (few : messages < u64_mod) where
  Step-ChannelInv :
      {c d : Channel} → Step messages c d → ChannelInv messages c → ChannelInv messages d
  unfolding View.wake_producer
  Step-ChannelInv {c} (begin_reserve more e _ free fits) inv =
      Sending.begin_reserve-Inv messages few c inv more e fits
  Step-ChannelInv {c} (break_off _ e _ refused) inv =
      absurd (Sending.reserves messages few c inv e refused)
  Step-ChannelInv {c} (reserve {t} m) inv =
      Sending.by_producer messages few c inv t c.filled (Reserving-Inv m inv.ring)
        (Reserving-Counts messages c.i m inv.producer_counts) (Reserving-lists m)
  Step-ChannelInv {c} (fill r position e _) inv = Sending.fill-Inv messages few c inv r position e
  Step-ChannelInv {c} (commit r position e _) inv =
      Sending.commit-Inv messages few c inv r position e
  Step-ChannelInv {c} (wake_consumer e) inv = Sending.wake_consumer-Inv messages few c inv e
  Step-ChannelInv {c} (finish_producing _ over) inv =
      Sending.finish_producing-Inv messages few c inv over
  Step-ChannelInv {c} (read {t} l m _) inv =
      Draining.by_consumer messages few c inv t c.loop c.user_data (Reading-Inv m inv.ring)
        (Reading-lists m) inv.consumer_counts inv.loop_over
  Step-ChannelInv {c} (read_nothing {t} l m _) inv =
      Draining.by_consumer messages few c inv t found_nothing c.user_data (Reading-Inv m inv.ring)
        (Reading-lists m) (received_at messages c inv l) (λ q. cc)
  Step-ChannelInv {c} (take at x l e _) inv = Draining.take-Inv messages few c inv at x l e
  Step-ChannelInv {c} (decline at x l e _) inv =
      Draining.by_consumer messages few c inv (record c.threads { consumer = ConsumerPc.resting })
        found_nothing x.meta.user_data (Consumer.moved c.threads inv.ring ConsumerPc.resting tt)
        (refl, refl, refl, refl) (received_at messages c inv l) (λ q. cc)
  Step-ChannelInv {c} (wake_producer e) inv =
      Draining.by_consumer messages few c inv
        (record c.threads {
          segment = View.wake_producer c.threads.segment;
          consumer = ConsumerPc.resting;
        })
        c.loop c.user_data (Consumer.wake-Inv c.threads inv.ring e) (refl, refl, refl, refl)
        inv.consumer_counts inv.loop_over
  Step-ChannelInv {c} (check_number l _) inv = Draining.check_number-Inv messages few c inv l
  Step-ChannelInv {c} (see_done l d) inv =
      Draining.by_consumer messages few c inv c.threads finished c.user_data inv.ring
        (refl, refl, refl, refl) (received_at messages c inv l) (λ _. d)
  Step-ChannelInv {c} (wait l _) inv =
      Draining.by_consumer messages few c inv c.threads draining c.user_data inv.ring
        (refl, refl, refl, refl) (received_at messages c inv l) (λ q. cc)

  Reach-ChannelInv : {bytes : Memory} {c : Channel} → Reach messages bytes c → ChannelInv messages c
  Reach-ChannelInv {bytes} here = Sending.start-Inv messages bytes
  Reach-ChannelInv (later r m) = Step-ChannelInv m (Reach-ChannelInv r)

  -- Behind the last round as many messages have been sent as there are.
  sent_at : (i n : ℕ) (p : ProducerPc) → i ≡ messages → ProducerCounts messages i n p → n ≡ messages
  sent_at i n ProducerPc.idle e h = omega arith
  sent_at i n (at_head _ _) e (_, h, more) = omega arith
  sent_at i n (loaded_read _ _ _) e (_, h, more) = omega arith
  sent_at i n (pad_won _ _) e (_, h, more) = omega arith
  sent_at i n (pad_stored _ _) e (_, h, more) = omega arith
  sent_at i n (pad_committed _ _) e (_, h, more) = omega arith
  sent_at i n (slot_won _ _) e (_, h, more) = omega arith
  sent_at i n (filling _ _) e (_, h, more) = omega arith
  sent_at i n ProducerPc.published e (h, more) = omega arith

  -- With fewer than 2^64 messages, and while the 64-bit positions last, whatever the two threads
  -- do, the producer meets no unexpected status, and the consumer counts no mismatch. When its loop
  -- is over, the messages that it has drained and those still in the ring are as many as have been
  -- asked for.
  pub messages_outcome :
      {bytes : Memory} {c : Channel}
      → Reach messages bytes c
      → (c.broken ≡ false)
        × (c.mismatches ≡ 0)
        × (c.loop ≡ finished
            → (held : List Message) × Holds c.threads.segment held
              × (c.drained + length held ≡ messages))
  messages_outcome {bytes} {c} r =
      let inv = Reach-ChannelInv r in
      let i = inv.ring in
      (
        inv.unbroken,
        inv.no_mismatch,
        λ over.
            let n = received_at messages c inv over in
            let all =
              sent_at c.i (length c.threads.sent) c.threads.producer
                (inv.all_sent (inv.loop_over over)) inv.producer_counts in
            (
              i.held,
              i.holds,
              omega (
                arith,
                n,
                all,
                length-append c.threads.received i.held,
                ap (λ (q : List Message). length q) i.in_order,
              ),
            ),
      )
