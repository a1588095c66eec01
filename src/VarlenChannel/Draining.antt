-- ===== src/VarlenChannel/Draining.antt =====
-- Each access of the thread that drains keeps the channel's invariant.
use mathlib.Core.Path.{subst}
use spscring.Base.{
  ℕ, ◌+◌, ◌<◌, ◌≡◌, sym, ◌∙◌, true, ◌==◌, if◌then◌else◌, [], ◌∷◌, ◌++◌, append_assoc, length,
  length-append, u64_mod, arith,
}
use spscring.View.{store_read_pos}
use spscring.Varlen.Reader.{Message}
use spscring.Varlen.Threads.{shown, Threads, taken}
use spscring.Varlen.Threads.Invariant.{Inv}
use spscring.Varlen.Threads.Consumer
use spscring.Channel.Numbers.{Numbered, Numbered-at}
use spscring.VarlenChannel.{Channel, ConsumerLoop, draining, got_message, finished}
use spscring.VarlenChannel.Invariant.{
  number_of, ProducerCounts, ConsumerCounts, ChannelInv, received_at, geometry_of,
}

module _ (messages : ℕ) (few : messages < u64_mod) (c : Channel) (inv : ChannelInv messages c) where
  open inv use {
    ring, numbered, producer_counts, consumer_counts, most, all_sent, loop_over, no_mismatch,
    geometry, unbroken,
  }

  pub take-Inv :
      (at : ℕ) (x : Message)
      → c.loop ≡ draining
      → c.threads.consumer ≡ shown at x
      → ChannelInv messages (record c {
        threads = taken at x c.threads;
        user_data = x.meta.user_data;
        loop = got_message;
      })
  unfolding store_read_pos
  take-Inv at x l e =
      let n = received_at messages c inv l in
      let i = Consumer.take-Inv c.threads ring at x e in
      let split : c.threads.received ++ (x ∷ i.held) ≡ c.threads.sent =
        sym (append_assoc c.threads.received (x ∷ []) i.held) ∙ i.in_order in
      let number =
        Numbered-at number_of 0 c.threads.received x i.held
          (subst (Numbered number_of 0) (sym split) numbered) in
      record {
        ring = i;
        numbered = numbered;
        producer_counts = producer_counts;
        consumer_counts =
            (omega (arith, length-append c.threads.received (x ∷ []), n), omega (arith, number, n));
        most = most;
        all_sent = all_sent;
        loop_over = λ q. cc;
        no_mismatch = no_mismatch;
        geometry = geometry;
        unbroken = unbroken;
      }

  -- The consumer moves, and nothing is received.
  pub by_consumer :
      (t : Threads) (l : ConsumerLoop) (user_data : ℕ)
      → Inv t
      → (t.sent ≡ c.threads.sent)
        × (t.received ≡ c.threads.received)
        × (geometry_of t ≡ geometry_of c.threads)
        × (t.producer ≡ c.threads.producer)
      → ConsumerCounts l c.drained user_data (length c.threads.received)
      → (l ≡ finished → c.producer_done ≡ true)
      → ChannelInv messages (record c { threads = t; user_data = user_data; loop = l })
  by_consumer t l user_data i (s, r, g, p) counts over = record {
    ring = i;
    numbered = subst (Numbered number_of 0) (sym s) numbered;
    producer_counts =
        subst (λ q. ProducerCounts messages c.i (length q) t.producer) (sym s)
          (subst (ProducerCounts messages c.i (length c.threads.sent)) (sym p) producer_counts);
    consumer_counts = subst (λ q. ConsumerCounts l c.drained user_data (length q)) (sym r) counts;
    most = most;
    all_sent = all_sent;
    loop_over = over;
    no_mismatch = no_mismatch;
    geometry = g ∙ geometry;
    unbroken = unbroken;
  }

  pub check_number-Inv :
      c.loop ≡ got_message
      → ChannelInv messages (record c {
        mismatches = if c.user_data == c.drained then c.mismatches else c.mismatches + 1;
        drained = c.drained + 1;
        loop = draining;
      })
  check_number-Inv l =
      let (n, same) = received_at messages c inv l in
      record {
        ring = ring;
        numbered = numbered;
        producer_counts = producer_counts;
        consumer_counts = n;
        most = most;
        all_sent = all_sent;
        loop_over = λ q. cc;
        no_mismatch = ground (arith, same, no_mismatch);
        geometry = geometry;
        unbroken = unbroken;
      }
