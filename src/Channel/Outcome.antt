-- ===== src/Channel/Outcome.antt =====
-- What the consumer of the channel sees, and what it may miss.
use mathlib.Core.Path.{subst}
use spscring.Base.{ℕ, ◌+◌, ◌≤◌, ◌<◌, ◌≡◌, refl, ap, true, length, length-append, u64_mod, arith}
use spscring.Memory.{Memory}
use spscring.Fixed.{item_count}
use spscring.Fixed.Contents.{contents, slots_from, published}
use spscring.Control.{is_valid_data_alignment}
use spscring.Fixed.Threads.{ProducerPc, filling}
use spscring.Fixed.Threads.Safety.{length-contents-le}
use spscring.Channel.{
  Channel, found_nothing, finished, Step, reserve, write_tag, commit, wake_consumer,
  finish_producing, try_read, check_tag, give_back, wake_producer, see_done, wait, start, Reach,
  here, later,
}
use spscring.Channel.Invariant.{ProducerCounts, LoopKnows, ChannelInv, counts_at, drained_at}
use spscring.Channel.Producer.{
  write_tag-Inv, commit-Inv, wake_consumer-Inv, finish_producing-Inv, reserve-Inv,
}
use spscring.Channel.Consumer.{
  try_read-Inv, check_tag-Inv, give_back-Inv, wake_producer-Inv, see_done-Inv, wait-Inv,
}

start-Inv : (messages : ℕ) (bytes : Memory) → ChannelInv messages (start bytes)
unfolding start contents published slots_from is_valid_data_alignment
start-Inv messages bytes = record {
  ring = record {
    valid = record {
      ring = record {
        item = omega arith;
        item_fits = omega arith;
        room = omega arith;
        capacity_fits = omega arith;
        whole = refl;
      };
      read_le = omega arith;
      write_le = omega arith;
      write_fits = omega arith;
      read_slot = refl;
      commit_slot = refl;
      free = λ _. refl;
      reserved = λ h. cc;
    };
    producer_knows = refl;
    consumer_knows = tt;
    in_order = refl;
  };
  item = refl;
  numbered = tt;
  most = omega arith;
  producer_counts = (refl, refl);
  consumer_counts = refl;
  loop_knows = tt;
  all_sent = λ d. cc;
  no_mismatch = refl;
}

module _ (messages : ℕ) (small : messages < u64_mod) where
  Step-ChannelInv :
      {c d : Channel} → Step messages c d → ChannelInv messages c → ChannelInv messages d
  Step-ChannelInv {c} (reserve more m) inv = reserve-Inv messages small c inv more m
  Step-ChannelInv {c} (write_tag slot e _) inv = write_tag-Inv messages small c inv slot e
  Step-ChannelInv {c} (commit slot e tagged) inv = commit-Inv messages small c inv slot e tagged
  Step-ChannelInv {c} (wake_consumer e) inv = wake_consumer-Inv messages small c inv e
  Step-ChannelInv {c} (finish_producing _ over) inv = finish_producing-Inv messages small c inv over
  Step-ChannelInv {c} (try_read l m) inv = try_read-Inv messages c inv l m
  Step-ChannelInv {c} (check_tag slot e) inv = check_tag-Inv messages c inv slot e
  Step-ChannelInv {c} (give_back slot seen e) inv = give_back-Inv messages c inv slot seen e
  Step-ChannelInv {c} (wake_producer e) inv = wake_producer-Inv messages c inv e
  Step-ChannelInv {c} (see_done l d) inv = see_done-Inv messages c inv l d
  Step-ChannelInv {c} (wait _ _) inv = wait-Inv messages c inv

  pub Reach-ChannelInv :
      {bytes : Memory} {c : Channel} → Reach messages bytes c → ChannelInv messages c
  Reach-ChannelInv {bytes} here = start-Inv messages bytes
  Reach-ChannelInv (later r m) = Step-ChannelInv m (Reach-ChannelInv r)

  done-sent :
      (c : Channel)
      → ChannelInv messages c
      → c.producer_done ≡ true
      → length c.threads.sent ≡ messages
  done-sent c inv d = go c.threads.producer inv.producer_counts
    where
      go :
          (p : ProducerPc)
          → ProducerCounts messages c.i c.tagged c.threads.bytes (length c.threads.sent) p
          → length c.threads.sent ≡ messages
      go ProducerPc.idle (_, n) = omega (arith, inv.all_sent d, inv.most)
      go (ProducerPc.loaded_write _) (_, n, more) = absurd (omega (arith, inv.all_sent d))
      go (ProducerPc.loaded_both _ _) (_, n, more) = absurd (omega (arith, inv.all_sent d))
      go (ProducerPc.filling _) (n, more, _) = absurd (omega (arith, inv.all_sent d))
      go ProducerPc.published (_, n, more) = absurd (omega (arith, inv.all_sent d))

  -- With fewer than 2^64 messages, and while the 64-bit positions last, whatever the two threads
  -- do, the consumer counts no mismatch. When its loop is over, the frames
  -- that it has drained and those still in the ring are as many as the messages; so it may have
  -- missed some, but no more than the ring has slots.
  pub channel_outcome :
      {bytes : Memory} {c : Channel}
      → Reach messages bytes c
      → (c.mismatches ≡ 0)
        × (c.loop ≡ finished
            → (c.drained + length (contents c.threads.segment) ≡ messages)
              × (length (contents c.threads.segment) ≤ item_count c.threads.segment))
  channel_outcome {c = c} r =
      let inv = Reach-ChannelInv r in
      (
        inv.no_mismatch,
        λ over.
            let (rest, d) =
              subst (LoopKnows c.producer_done c.threads.consumer) over inv.loop_knows in
            (
              omega (
                arith,
                drained_at messages c inv rest,
                done-sent c inv d,
                ap length inv.ring.in_order,
                length-append c.threads.received (contents c.threads.segment),
              ),
              length-contents-le c.threads inv.ring,
            ),
      )

  -- With fewer than 2^64 messages a consumer that has found nothing misses the last frame, if the
  -- producer then commits it and says that it is done before the consumer looks whether it is.
  pub last_frame_missed :
      {bytes : Memory} {c : Channel} (slot : ℕ)
      → Reach messages bytes c
      → c.loop ≡ found_nothing
      → c.threads.producer ≡ filling slot
      → c.tagged ≡ true
      → c.i + 1 ≡ messages
      → (d : Channel) × Reach messages bytes d × (d.loop ≡ finished) × (d.drained < messages)
  last_frame_missed {c = c} slot r nothing_there e tagged last =
      let inv = Reach-ChannelInv r in
      let rest =
        subst (LoopKnows c.producer_done c.threads.consumer) nothing_there inv.loop_knows in
      let (n, _, _) = counts_at messages c inv e in
      (
        _,
        later
            (later (later (later r (commit slot e tagged)) (wake_consumer refl))
              (finish_producing refl (omega arith)))
            (see_done nothing_there refl),
        refl,
        omega (
          arith,
          drained_at messages c inv rest,
          n,
          ap length inv.ring.in_order,
          length-append c.threads.received (contents c.threads.segment),
        ),
      )
