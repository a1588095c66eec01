-- ===== src/Channel/Consumer.antt =====
-- The consumer's accesses keep the invariant of the channel.
use mathlib.Core.Path.{subst}
use spscring.Base.{
  ◌==◌, if◌then◌else◌, ℕ, ◌+◌, ◌≡◌, ◌≢◌, refl, sym, ap, ◌∙◌, Bool, true, List, [], ◌∷◌, ◌++◌,
  length-append, arith,
}
use spscring.Memory.{load}
use spscring.View.{store_read_pos, wake_producer}
use spscring.Fixed.Threads.{
  ConsumerPc, resting, loaded_front, loaded_fronts, viewing, viewed, advanced, Threads, Reading,
  load_commit_pos, find_empty, find_slot, reading, looking, giving_back, waking_producer,
}
use spscring.Fixed.Threads.Reached.{Step-Inv}
use spscring.Fixed.Threads.Invariant.{consumer_at}
use spscring.Channel.{
  Channel, ConsumerLoop, draining, found_nothing, finished, tag_of, after_read, committed,
  producer_woken, looked, given_back,
}
use spscring.Channel.Numbers.{Numbered, Numbered-at}
use spscring.Fixed.Threads.Messages.{contents-store_read_pos}
use spscring.Channel.Invariant.{LoopKnows, ChannelInv, drained_at}

busy :
    (done : Bool) (p : ConsumerPc) (loop : ConsumerLoop)
    → p ≢ resting
    → LoopKnows done p loop
    → loop ≡ draining
busy done p draining other k = refl
busy done p found_nothing other k = absurd (other k)
busy done p finished other (k, _) = absurd (other k)

module _ (messages : ℕ) (c : Channel) (inv : ChannelInv messages c) where
  open inv use {
    ring, item, numbered, most, producer_counts, consumer_counts, loop_knows, all_sent, no_mismatch,
  }

  -- In a call the consumer is in its loop's body.
  busy_on : (p : ConsumerPc) → c.threads.consumer ≢ resting → LoopKnows c.producer_done p c.loop
  busy_on p other =
      subst (LoopKnows c.producer_done p)
        (sym (busy c.producer_done c.threads.consumer c.loop other loop_knows)) tt

  -- An access of try_read moves the consumer on and no count.
  pub try_read-Inv :
      {t : Threads}
      → c.loop ≡ draining
      → Reading c.threads t
      → ChannelInv messages
          (record c { threads = t; loop = after_read c.threads.consumer t.consumer })
  try_read-Inv l (Reading.load_read_pos e) = record {
    ring = Step-Inv (reading (Reading.load_read_pos e)) ring;
    item = item;
    numbered = numbered;
    most = most;
    producer_counts = producer_counts;
    consumer_counts = drained_at messages c inv e;
    loop_knows =
        subst
          (λ p.
            LoopKnows c.producer_done (loaded_front c.threads.read_pos)
              (after_read p (loaded_front c.threads.read_pos)))
          (sym e) tt;
    all_sent = all_sent;
    no_mismatch = no_mismatch;
  }
  try_read-Inv l (load_commit_pos read e) = record {
    ring = Step-Inv (reading (load_commit_pos read e)) ring;
    item = item;
    numbered = numbered;
    most = most;
    producer_counts = producer_counts;
    consumer_counts = drained_at messages c inv e;
    loop_knows =
        subst
          (λ p.
            LoopKnows c.producer_done (loaded_fronts read c.threads.commit_pos)
              (after_read p (loaded_fronts read c.threads.commit_pos)))
          (sym e) tt;
    all_sent = all_sent;
    no_mismatch = no_mismatch;
  }
  try_read-Inv l (find_empty read committed e h) = record {
    ring = Step-Inv (reading (find_empty read committed e h)) ring;
    item = item;
    numbered = numbered;
    most = most;
    producer_counts = producer_counts;
    consumer_counts = drained_at messages c inv e;
    loop_knows = subst (λ p. LoopKnows c.producer_done resting (after_read p resting)) (sym e) refl;
    all_sent = all_sent;
    no_mismatch = no_mismatch;
  }
  try_read-Inv l (find_slot read committed slot size e h) = record {
    ring = Step-Inv (reading (find_slot read committed slot size e h)) ring;
    item = item;
    numbered = numbered;
    most = most;
    producer_counts = producer_counts;
    consumer_counts = drained_at messages c inv e;
    loop_knows =
        subst (λ p. LoopKnows c.producer_done (viewing slot) (after_read p (viewing slot))) (sym e)
          tt;
    all_sent = all_sent;
    no_mismatch = no_mismatch;
  }

  -- The frame at hand has the number that the consumer expects.
  tag-drained :
      (slot : ℕ)
      → c.threads.consumer ≡ viewing slot
      → tag_of (load c.threads.bytes slot c.threads.fixed_item_size) ≡ c.drained
  tag-drained slot e =
      let (at, some_there) = consumer_at c.threads ring e in
      let split =
        ap (λ q. c.threads.received ++ q)
          (sym (contents-store_read_pos c.threads.writer c.threads.segment ring.valid some_there))
        ∙ ring.in_order in
      ap (λ p. tag_of (load c.threads.bytes p c.threads.fixed_item_size)) at
      ∙ Numbered-at tag_of 0 c.threads.received _ _ (subst (Numbered tag_of 0) (sym split) numbered)
      ∙ omega (arith, drained_at messages c inv e)

  pub check_tag-Inv :
      (slot : ℕ)
      → c.threads.consumer ≡ viewing slot
      → ChannelInv messages (record c {
        threads = looked slot c.threads;
        mismatches =
            if tag_of (load c.threads.bytes slot c.threads.fixed_item_size) == c.drained
            then c.mismatches
            else c.mismatches + 1;
        drained = c.drained + 1;
      })
  check_tag-Inv slot e = record {
    ring = Step-Inv (looking slot e) ring;
    item = item;
    numbered = numbered;
    most = most;
    producer_counts = producer_counts;
    consumer_counts = omega (arith, drained_at messages c inv e);
    loop_knows = busy_on _ (λ h. cc);
    all_sent = all_sent;
    no_mismatch = ground (arith, tag-drained slot e);
  }

  pub give_back-Inv :
      (slot : ℕ) (seen : List ℕ)
      → c.threads.consumer ≡ viewed slot seen
      → ChannelInv messages (record c { threads = given_back seen c.threads })
  unfolding store_read_pos
  give_back-Inv slot seen e = record {
    ring = Step-Inv (giving_back slot seen e) ring;
    item = item;
    numbered = numbered;
    most = most;
    producer_counts = producer_counts;
    consumer_counts =
        omega (arith, drained_at messages c inv e, length-append c.threads.received (seen ∷ []));
    loop_knows = busy_on _ (λ h. cc);
    all_sent = all_sent;
    no_mismatch = no_mismatch;
  }

  pub wake_producer-Inv :
      c.threads.consumer ≡ advanced
      → ChannelInv messages (record c { threads = producer_woken c.threads })
  unfolding wake_producer
  wake_producer-Inv e = record {
    ring = Step-Inv (waking_producer e) ring;
    item = item;
    numbered = numbered;
    most = most;
    producer_counts = producer_counts;
    consumer_counts = drained_at messages c inv e;
    loop_knows = busy_on _ (λ h. cc);
    all_sent = all_sent;
    no_mismatch = no_mismatch;
  }

  pub see_done-Inv :
      c.loop ≡ found_nothing
      → c.producer_done ≡ true
      → ChannelInv messages (record c { loop = finished })
  see_done-Inv l d = record {
    ring = ring;
    item = item;
    numbered = numbered;
    most = most;
    producer_counts = producer_counts;
    consumer_counts = consumer_counts;
    loop_knows = (subst (LoopKnows c.producer_done c.threads.consumer) l loop_knows, d);
    all_sent = all_sent;
    no_mismatch = no_mismatch;
  }

  pub wait-Inv : ChannelInv messages (record c { loop = draining })
  wait-Inv = record {
    ring = ring;
    item = item;
    numbered = numbered;
    most = most;
    producer_counts = producer_counts;
    consumer_counts = consumer_counts;
    loop_knows = tt;
    all_sent = all_sent;
    no_mismatch = no_mismatch;
  }
