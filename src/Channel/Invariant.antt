-- ===== src/Channel/Invariant.antt =====
-- The invariant of the channel.
use mathlib.Core.Path.{subst}
use spscring.Base.{ℕ, ◌+◌, ◌≤◌, ◌<◌, ◌≡◌, Bool, true, false, length}
use spscring.Memory.{Memory, load}
use spscring.Fixed.Threads.{
  ProducerPc, idle, loaded_write, loaded_both, filling, published, ConsumerPc, resting,
  loaded_front, loaded_fronts, viewing, viewed, advanced,
}
use spscring.Fixed.Threads.Invariant.{Inv}
use spscring.Channel.{Channel, ConsumerLoop, draining, found_nothing, finished, tag_of, committed}
use spscring.Channel.Numbers.{Numbered}

-- The producer's counts: n frames have been committed. A slot that is tagged holds the tag i.
abbrev pub ProducerCounts : ℕ → ℕ → Bool → Memory → ℕ → ProducerPc → Type 0
ProducerCounts messages i tagged m n idle = (tagged ≡ false) × (n ≡ i)
ProducerCounts messages i tagged m n (loaded_write write) =
    (tagged ≡ false) × (n ≡ i) × (i < messages)
ProducerCounts messages i tagged m n (loaded_both write read) =
    (tagged ≡ false) × (n ≡ i) × (i < messages)
ProducerCounts messages i tagged m n (filling slot) =
    (n ≡ i) × (i < messages) × (tagged ≡ true → tag_of (load m slot 64) ≡ i)
ProducerCounts messages i tagged m n published = (tagged ≡ false) × (n ≡ i + 1) × (i < messages)

-- The consumer's counts: n frames have been given back.
abbrev pub ConsumerCounts : ℕ → ℕ → ConsumerPc → Type 0
ConsumerCounts drained n resting = drained ≡ n
ConsumerCounts drained n (loaded_front read) = drained ≡ n
ConsumerCounts drained n (loaded_fronts read committed) = drained ≡ n
ConsumerCounts drained n (viewing slot) = drained ≡ n
ConsumerCounts drained n (viewed slot seen) = drained ≡ n + 1
ConsumerCounts drained n advanced = drained ≡ n

-- Out of its loop's body the consumer is in no call.
abbrev pub LoopKnows : Bool → ConsumerPc → ConsumerLoop → Type 0
LoopKnows producer_done p draining = Unit {0}
LoopKnows producer_done p found_nothing = p ≡ resting
LoopKnows producer_done p finished = (p ≡ resting) × (producer_done ≡ true)

pub record ChannelInv (messages : ℕ) (c : Channel) : Type 0 where
  pub ring : Inv c.threads
  pub item : c.threads.fixed_item_size ≡ 64
  pub numbered : Numbered tag_of 0 c.threads.sent
  pub most : c.i ≤ messages
  pub producer_counts :
      ProducerCounts messages c.i c.tagged c.threads.bytes
        (length c.threads.sent)
        c.threads.producer
  pub consumer_counts : ConsumerCounts c.drained (length c.threads.received) c.threads.consumer
  pub loop_knows : LoopKnows c.producer_done c.threads.consumer c.loop
  pub all_sent : c.producer_done ≡ true → messages ≤ c.i
  pub no_mismatch : c.mismatches ≡ 0

module _ (messages : ℕ) (c : Channel) (inv : ChannelInv messages c) where
  open inv use {producer_counts, consumer_counts}

  abbrev pub CountsAt : ProducerPc → Type 0
  CountsAt = ProducerCounts messages c.i c.tagged c.threads.bytes (length c.threads.sent)

  pub counts_at : {p : ProducerPc} → c.threads.producer ≡ p → CountsAt p
  counts_at e = subst CountsAt e producer_counts

  pub drained_at :
      {p : ConsumerPc}
      → c.threads.consumer ≡ p
      → ConsumerCounts c.drained (length c.threads.received) p
  drained_at e = subst (ConsumerCounts c.drained (length c.threads.received)) e consumer_counts
