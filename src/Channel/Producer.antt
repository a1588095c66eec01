-- ===== src/Channel/Producer.antt =====
-- The producer's accesses keep the invariant of the channel.
use mathlib.Core.Path.{subst}
use spscring.Base.{
  ℕ, ◌+◌, ◌≤◌, ◌<◌, ◌≡◌, refl, sym, ap, ◌∙◌, Bool, true, false, [], ◌∷◌, length, length-append,
  u64_mod, arith,
}
use spscring.Memory.{load, store, take-load, load-store}
use spscring.View.{Segment, store_commit_pos, wake_consumer}
use spscring.Varlen.Header.{to_bytes, from_bytes}
use spscring.Varlen.Layout.{length-to_bytes, from_bytes-to_bytes}
use spscring.Fixed.{reserve_from, fill, FixedWriter}
use spscring.Fixed.Refine.{fill-bytes}
use spscring.Fixed.Threads.{
  filling, published, ConsumerPc, Threads, Reserving, load_write_pos, find_full, reserving,
  filling_in, committing, waking_consumer,
}
use spscring.Fixed.Threads.Messages.{fill-SameFronts}
use spscring.Fixed.Threads.Reached.{Step-Inv}
use spscring.Channel.{
  Channel, ConsumerLoop, draining, found_nothing, finished, tag_of, filled, committed,
  consumer_woken,
}
use spscring.Channel.Numbers.{Numbered-append}
use spscring.Channel.Invariant.{ProducerCounts, LoopKnows, ChannelInv, counts_at}

-- A tag that has been written is read back.
tag_of-fill :
    (s : Segment) (slot i : ℕ)
    → i < u64_mod
    → tag_of (load (fill slot (to_bytes 8 i) s).bytes slot 64) ≡ i
unfolding tag_of
tag_of-fill s slot i small =
    let m = (fill slot (to_bytes 8 i) s).bytes in
    let stored : load m slot 8 ≡ to_bytes 8 i =
      ap (λ k. load k slot 8) (fill-bytes s slot (to_bytes 8 i))
      ∙ ap (λ n. load (store s.bytes slot (to_bytes 8 i)) slot n) (sym (length-to_bytes 8 i))
      ∙ load-store s.bytes slot (to_bytes 8 i) in
    ap from_bytes (take-load m slot 8 64 (omega arith) ∙ stored) ∙ from_bytes-to_bytes 8 i small

done_LoopKnows :
    (done : Bool) (p : ConsumerPc) (loop : ConsumerLoop)
    → LoopKnows done p loop
    → LoopKnows true p loop
done_LoopKnows done p draining k = tt
done_LoopKnows done p found_nothing k = k
done_LoopKnows done p finished (k, _) = (k, refl)

reserve_from-item :
    (write read : ℕ) (w : FixedWriter) (s : Segment)
    → (reserve_from write read w s).2.fixed_item_size ≡ s.fixed_item_size
unfolding reserve_from
reserve_from-item write read w s = ground arith

module _ (messages : ℕ) (small : messages < u64_mod) (c : Channel)
    (inv : ChannelInv messages c) where
  open inv use {
    ring, item, numbered, most, producer_counts, consumer_counts, loop_knows, all_sent, no_mismatch,
  }

  pub write_tag-Inv :
      (slot : ℕ)
      → c.threads.producer ≡ filling slot
      → ChannelInv messages
          (record c { threads = filled slot (to_bytes 8 c.i) c.threads; tagged = true })
  write_tag-Inv slot e =
      let (n, more, _) = counts_at messages c inv e in
      let f = fill-SameFronts slot (to_bytes 8 c.i) c.threads.segment in
      record {
        ring =
            Step-Inv
              (filling_in slot (to_bytes 8 c.i) e (omega (arith, length-to_bytes 8 c.i, item)))
              ring;
        item = f.item ∙ item;
        numbered = numbered;
        most = most;
        producer_counts =
            subst
              (ProducerCounts messages c.i true (fill slot (to_bytes 8 c.i) c.threads.segment).bytes
                (length c.threads.sent))
              (sym e) (n, more, λ _. tag_of-fill c.threads.segment slot c.i (omega arith));
        consumer_counts = consumer_counts;
        loop_knows = loop_knows;
        all_sent = all_sent;
        no_mismatch = no_mismatch;
      }

  pub commit-Inv :
      (slot : ℕ)
      → c.threads.producer ≡ filling slot
      → c.tagged ≡ true
      → ChannelInv messages (record c { threads = committed slot c.threads; tagged = false })
  unfolding store_commit_pos
  commit-Inv slot e tagged =
      let (n, more, tag) = counts_at messages c inv e in
      let frame = load c.threads.bytes slot c.threads.fixed_item_size in
      let number : tag_of frame ≡ c.i =
        ap (λ k. tag_of (load c.threads.bytes slot k)) item ∙ tag tagged in
      record {
        ring = Step-Inv (committing slot e) ring;
        item = item;
        numbered =
            Numbered-append tag_of 0 c.threads.sent frame numbered (omega (arith, number, n));
        most = most;
        producer_counts = (refl, omega (arith, length-append c.threads.sent (frame ∷ []), n), more);
        consumer_counts = consumer_counts;
        loop_knows = loop_knows;
        all_sent = all_sent;
        no_mismatch = no_mismatch;
      }

  pub wake_consumer-Inv :
      c.threads.producer ≡ published
      → ChannelInv messages (record c { threads = consumer_woken c.threads; i = c.i + 1 })
  unfolding wake_consumer
  wake_consumer-Inv e =
      let (untagged, n, more) = counts_at messages c inv e in
      record {
        ring = Step-Inv (waking_consumer e) ring;
        item = item;
        numbered = numbered;
        most = omega arith;
        producer_counts = (untagged, n);
        consumer_counts = consumer_counts;
        loop_knows = loop_knows;
        all_sent = λ d. omega (arith, all_sent d);
        no_mismatch = no_mismatch;
      }

  pub finish_producing-Inv :
      messages ≤ c.i → ChannelInv messages (record c { producer_done = true })
  finish_producing-Inv over = record {
    ring = ring;
    item = item;
    numbered = numbered;
    most = most;
    producer_counts = producer_counts;
    consumer_counts = consumer_counts;
    loop_knows = done_LoopKnows c.producer_done c.threads.consumer c.loop loop_knows;
    all_sent = λ _. over;
    no_mismatch = no_mismatch;
  }

  -- try_reserve moves the producer on and no count.
  pub reserve-Inv :
      {t : Threads}
      → c.i < messages
      → Reserving c.threads t
      → ChannelInv messages (record c { threads = t })
  reserve-Inv more (load_write_pos e free) =
      let (untagged, n) = counts_at messages c inv e in
      record {
        ring = Step-Inv (reserving (load_write_pos e free)) ring;
        item = item;
        numbered = numbered;
        most = most;
        producer_counts = (untagged, n, more);
        consumer_counts = consumer_counts;
        loop_knows = loop_knows;
        all_sent = all_sent;
        no_mismatch = no_mismatch;
      }
  reserve-Inv more (Reserving.load_read_pos write e) = record {
    ring = Step-Inv (reserving (Reserving.load_read_pos write e)) ring;
    item = item;
    numbered = numbered;
    most = most;
    producer_counts = counts_at messages c inv e;
    consumer_counts = consumer_counts;
    loop_knows = loop_knows;
    all_sent = all_sent;
    no_mismatch = no_mismatch;
  }
  reserve-Inv more (find_full write read e full) =
      let (untagged, n, _) = counts_at messages c inv e in
      record {
        ring = Step-Inv (reserving (find_full write read e full)) ring;
        item = item;
        numbered = numbered;
        most = most;
        producer_counts = (untagged, n);
        consumer_counts = consumer_counts;
        loop_knows = loop_knows;
        all_sent = all_sent;
        no_mismatch = no_mismatch;
      }
  reserve-Inv more (Reserving.reserve write read slot w' s' e room h) =
      let (untagged, n, _) = counts_at messages c inv e in
      record {
        ring = Step-Inv (reserving (Reserving.reserve write read slot w' s' e room h)) ring;
        item =
            sym (ap (λ r. r.2.fixed_item_size) h)
            ∙ reserve_from-item write read c.threads.writer c.threads.segment
            ∙ item;
        numbered = numbered;
        most = most;
        producer_counts = (n, more, λ tagged. cc);
        consumer_counts = consumer_counts;
        loop_knows = loop_knows;
        all_sent = all_sent;
        no_mismatch = no_mismatch;
      }
