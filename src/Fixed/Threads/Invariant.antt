-- ===== src/Fixed/Threads/Invariant.antt =====
-- The invariant of the two threads.
use mathlib.Core.Path.{subst}
use spscring.Base.{◌≡◌, ◌++◌}
use spscring.Fixed.Valid.{IsValid}
use spscring.Fixed.Contents.{contents}
use spscring.Fixed.Threads.{ProducerPc, Threads, ProducerPc, ConsumerPc}
use spscring.Fixed.Threads.Sides.{ProducerKnows, ConsumerKnows}

-- The messages received, and then those in the ring, are the messages sent.
pub record Inv (t : Threads) : Type 0 where
  pub valid : IsValid t.writer t.segment
  pub producer_knows : ProducerKnows t.writer t.segment t.producer
  pub consumer_knows : ConsumerKnows t.segment t.consumer
  pub in_order : t.received ++ contents t.segment ≡ t.sent

module _ (t : Threads) (inv : Inv t) where
  open inv use {producer_knows, consumer_knows}

  -- What either thread knows where it stands.
  pub producer_at : {p : ProducerPc} → t.producer ≡ p → ProducerKnows t.writer t.segment p
  producer_at e = subst (ProducerKnows t.writer t.segment) e producer_knows

  pub consumer_at : {p : ConsumerPc} → t.consumer ≡ p → ConsumerKnows t.segment p
  consumer_at e = subst (ConsumerKnows t.segment) e consumer_knows
