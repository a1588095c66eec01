-- ===== src/VarlenChannel/Sending.antt =====
-- Each access of the thread that sends keeps the channel's invariant.
use mathlib.Core.Path.{subst}
use spscring.Base.{
  ℕ, ◌+◌, ◌%◌, ◌≤◌, ◌<◌, ◌≡◌, refl, sym, ap, ◌∙◌, Bool, true, false, zero, suc, [], ◌∷◌, length,
  length-append, u64_mod, arith, ◌⊎◌, inl, inr,
}
use spscring.Memory.{Memory}
use spscring.Control.{is_valid_data_alignment}
use spscring.Control.Geometry.{IsAlignment}
use spscring.Varlen.Writer.{needed_size}
use spscring.Varlen.Align.{IsAlignment-bounds, needed_size-IsRounded}
use spscring.Varlen.Chain.{done}
use spscring.Varlen.Reader.{message_at}
use spscring.Varlen.Header.{load_meta}
use spscring.View
use spscring.View.{store_commit_pos}
use spscring.Varlen.Threads.{
  Request, IsMessage, ProducerPc, at_head, filling, needed, Threads, payload_written, committed,
}
use spscring.Varlen.Threads.Invariant.{Inv, producer_at}
use spscring.Varlen.Threads.Producer
use spscring.Varlen.Threads.Slots
use spscring.Varlen.Threads.Publish
use spscring.Channel.Numbers.{Numbered, Numbered-append}
use spscring.VarlenChannel.{Channel, var_capacity, request_of, payload_of, memset, start}
use spscring.VarlenChannel.Invariant.{
  number_of, ProducerCounts, ConsumerCounts, ChannelInv, counts_at, geometry_of,
}

request_of-IsMessage :
    (i alignment : ℕ) → i < u64_mod → IsAlignment alignment → IsMessage alignment (request_of i)
request_of-IsMessage i alignment small al =
    let bounds = IsAlignment-bounds alignment al in
    record {
      nonempty = omega arith;
      size = omega arith;
      meta = record {
        user_data = small;
        timestamp_ns = omega arith;
        schema_id = omega arith;
        flags = omega arith;
      };
    }

length-memset : (value n : ℕ) → length (memset value n) ≡ n
length-memset value zero = refl
length-memset value (suc n) = ap suc (length-memset value n)

pub start-Inv : (messages : ℕ) (bytes : Memory) → ChannelInv messages (start bytes)
unfolding start is_valid_data_alignment
start-Inv messages bytes = record {
  ring = record {
    fronts = record {
      alignment = (3, omega arith, refl);
      word = omega arith;
      room = omega arith;
      aligned = refl;
      commit_slot = refl;
      read_le = omega arith;
      commit_le = omega arith;
      write_le = omega arith;
      small = omega arith;
    };
    producer_knows = (refl, refl);
    consumer_knows = tt;
    held = [];
    holds = done refl;
    in_order = refl;
  };
  numbered = tt;
  producer_counts = refl;
  consumer_counts = refl;
  most = omega arith;
  all_sent = λ d. cc;
  loop_over = λ l. cc;
  no_mismatch = refl;
  geometry = refl;
  unbroken = refl;
}

module _ (messages : ℕ) (few : messages < u64_mod) (c : Channel) (inv : ChannelInv messages c) where
  open inv use {
    ring, numbered, producer_counts, consumer_counts, most, all_sent, loop_over, no_mismatch,
    geometry, unbroken,
  }

  -- The producer moves, and nothing is sent.
  pub by_producer :
      (t : Threads) (filled : Bool)
      → Inv t
      → ProducerCounts messages c.i (length t.sent) t.producer
      → (t.sent ≡ c.threads.sent)
        × (t.received ≡ c.threads.received)
        × (geometry_of t ≡ geometry_of c.threads)
      → ChannelInv messages (record c { threads = t; filled = filled })
  by_producer t filled i counts (s, r, g) = record {
    ring = i;
    numbered = subst (Numbered number_of 0) (sym s) numbered;
    producer_counts = counts;
    consumer_counts =
        subst (λ q. ConsumerCounts c.loop c.drained c.user_data (length q)) (sym r) consumer_counts;
    most = most;
    all_sent = all_sent;
    loop_over = loop_over;
    no_mismatch = no_mismatch;
    geometry = g ∙ geometry;
    unbroken = unbroken;
  }

  pub commit-Inv :
      (r : Request) (position : ℕ)
      → c.threads.producer ≡ filling r position
      → ChannelInv messages (record c { threads = committed position c.threads; filled = false })
  unfolding message_at store_commit_pos
  commit-Inv r position e =
      let (is_i, n, more) = counts_at messages c inv e in
      let (served, (now, next, fits), size, payload, meta_there) = producer_at c.threads ring e in
      let x = message_at (position % c.threads.data_capacity) c.threads.segment in
      let number : number_of x ≡ c.i =
        ap (λ p. (load_meta c.threads.bytes (p % c.threads.data_capacity)).user_data) now
        ∙ ap (λ m. m.user_data) meta_there
        ∙ ap (λ (q : Request). q.meta.user_data) is_i in
      record {
        ring = Publish.commit-Inv c.threads ring r position e;
        numbered = Numbered-append number_of 0 c.threads.sent x numbered (omega (arith, number, n));
        producer_counts = (omega (arith, length-append c.threads.sent (x ∷ []), n), more);
        consumer_counts = consumer_counts;
        most = most;
        all_sent = all_sent;
        loop_over = loop_over;
        no_mismatch = no_mismatch;
        geometry = geometry;
        unbroken = unbroken;
      }

  pub wake_consumer-Inv :
      c.threads.producer ≡ ProducerPc.published
      → ChannelInv messages (record c {
        threads = record c.threads {
          segment = View.wake_consumer c.threads.segment;
          producer = ProducerPc.idle;
        };
        i = c.i + 1;
      })
  unfolding View.wake_consumer
  wake_consumer-Inv e =
      let (n, more) = counts_at messages c inv e in
      record {
        ring = Publish.wake-Inv c.threads ring e;
        numbered = numbered;
        producer_counts = n;
        consumer_counts = consumer_counts;
        most = omega arith;
        all_sent = λ d. absurd (omega (arith, all_sent d));
        loop_over = loop_over;
        no_mismatch = no_mismatch;
        geometry = geometry;
        unbroken = unbroken;
      }

  pub begin_reserve-Inv :
      c.i < messages
      → c.threads.producer ≡ ProducerPc.idle
      → needed c.threads.segment (request_of c.i) ≤ c.threads.data_capacity
      → ChannelInv messages (record c {
        threads = record c.threads { producer = at_head (request_of c.i) c.threads.write_pos };
      })
  begin_reserve-Inv more e fits =
      by_producer (record c.threads { producer = at_head (request_of c.i) c.threads.write_pos })
        c.filled
        (Producer.load_write_pos-Inv c.threads ring (request_of c.i) e
          (request_of-IsMessage c.i c.threads.data_alignment (omega arith) ring.fronts.alignment)
          fits)
        (refl, counts_at messages c inv e, more) (refl, refl, refl)

  pub fill-Inv :
      (r : Request) (position : ℕ)
      → c.threads.producer ≡ filling r position
      → ChannelInv messages (record c {
        threads = payload_written position 0 (payload_of c.i) c.threads;
        filled = true;
      })
  fill-Inv r position e =
      let (is_i, n, more) = counts_at messages c inv e in
      let fits : r.payload_size ≡ 1 + c.i % 31 = ap (λ (q : Request). q.payload_size) is_i in
      let len = length-memset (97 + c.i % 26) (1 + c.i % 31) in
      by_producer (payload_written position 0 (payload_of c.i) c.threads) true
        (Slots.write_payload-Inv c.threads ring r position 0 (payload_of c.i) e
          (omega (arith, fits, len)))
        producer_counts (refl, refl, refl)

  -- Every message fits the ring, and nothing is pending.
  pub reserves :
      c.threads.producer ≡ ProducerPc.idle
      → (c.threads.writer.pending ≡ true)
        ⊎ (c.threads.data_capacity < needed c.threads.segment (request_of c.i))
      → ⊥
  unfolding needed
  reserves e (inl pending) = let (free, _) = producer_at c.threads ring e in cc
  reserves e (inr over) =
      let capacity : c.threads.data_capacity ≡ var_capacity = ap (λ (g : ℕ × ℕ). g.0) geometry in
      let alignment : c.threads.data_alignment ≡ 8 = ap (λ (g : ℕ × ℕ). g.1) geometry in
      let over' : c.threads.data_capacity < needed_size (1 + c.i % 31) c.threads.data_alignment =
        over in
      let rounded =
        needed_size-IsRounded (1 + c.i % 31) c.threads.data_alignment ring.fronts.alignment
          (omega arith) in
      absurd (omega (arith, rounded.close))

  pub finish_producing-Inv :
      (messages ≤ c.i) ⊎ (c.broken ≡ true) → ChannelInv messages (record c { producer_done = true })
  finish_producing-Inv (inr broken) = absurd cc
  finish_producing-Inv (inl over) = record {
    ring = ring;
    numbered = numbered;
    producer_counts = producer_counts;
    consumer_counts = consumer_counts;
    most = most;
    all_sent = λ _. omega arith;
    loop_over = λ _. refl;
    no_mismatch = no_mismatch;
    geometry = geometry;
    unbroken = unbroken;
  }
