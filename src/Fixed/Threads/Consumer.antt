-- ===== src/Fixed/Threads/Consumer.antt =====
-- Each access of the consumer keeps the invariant.

use spscring.Base.{ℕ, ◌≤◌, ◌≡◌, refl, sym, ap, ◌∙◌, List, [], ◌∷◌, ◌++◌, append_assoc, some, arith}
use spscring.Memory.{load}
use spscring.View.{Segment, store_read_pos, wake_producer}
use spscring.Fixed.{read_from}
use spscring.Fixed.Contents.{contents, published}
use spscring.Fixed.Threads.{
  producer_woken, viewing, viewed, advanced, Threads, Reading, load_commit_pos, find_empty,
  find_slot, committed, looked, given_back,
}
use spscring.Fixed.Threads.Sides.{HasOldest, ProducerKnows-kept}
use spscring.Fixed.Threads.Messages.{
  SameFronts, SameFronts-IsValid, contents-store_read_pos, store_read_pos-IsValid, next_read_pos,
}
use spscring.Fixed.Threads.Invariant.{Inv, consumer_at}

read_from-HasOldest :
    (s : Segment) (read committed slot size : ℕ)
    → read ≡ s.read_pos
    → committed ≤ s.commit_pos
    → read_from read committed s ≡ some (slot, size)
    → HasOldest s slot
unfolding read_from
read_from-HasOldest s read committed slot size now low h = ground (arith, h, now)

module _ (t : Threads) (inv : Inv t) where
  open inv use {valid, producer_knows, consumer_knows, in_order}

  pub Reading-Inv : {t' : Threads} → Reading t t' → Inv t'
  Reading-Inv (Reading.load_read_pos e) = record {
    valid = valid;
    producer_knows = producer_knows;
    consumer_knows = refl;
    in_order = in_order;
  }
  Reading-Inv (load_commit_pos read e) = record {
    valid = valid;
    producer_knows = producer_knows;
    consumer_knows = (consumer_at t inv e, omega arith);
    in_order = in_order;
  }
  Reading-Inv (find_empty read committed e h) = record {
    valid = valid;
    producer_knows = producer_knows;
    consumer_knows = tt;
    in_order = in_order;
  }
  Reading-Inv (find_slot read committed slot size e h) =
      let (now, low) = consumer_at t inv e in
      record {
        valid = valid;
        producer_knows = producer_knows;
        consumer_knows = read_from-HasOldest t.segment read committed slot size now low h;
        in_order = in_order;
      }

  pub looking-Inv : (slot : ℕ) → t.consumer ≡ viewing slot → Inv (looked slot t)
  looking-Inv slot e =
      let (at, some_there) = consumer_at t inv e in
      record {
        valid = valid;
        producer_knows = producer_knows;
        consumer_knows = ((at, some_there), ap (λ p. load t.bytes p t.fixed_item_size) at);
        in_order = in_order;
      }

  pub giving_back-Inv :
      (slot : ℕ) (seen : List ℕ) → t.consumer ≡ viewed slot seen → Inv (given_back seen t)
  unfolding store_read_pos
  giving_back-Inv slot seen e =
      let ((at, some_there), same) = consumer_at t inv e in
      let s' = store_read_pos (next_read_pos t.segment) t.segment in
      let (next, valid') = store_read_pos-IsValid t.writer t.segment valid some_there in
      record {
        valid = valid';
        producer_knows =
            ProducerKnows-kept t.writer t.segment s' t.producer
              (record {
                capacity = refl;
                item = refl;
                write = refl;
                commit = refl;
                read = omega (arith, next);
              })
              producer_knows;
        consumer_knows = tt;
        in_order =
            append_assoc t.received (seen ∷ []) (contents s')
            ∙ ap (λ q. t.received ++ q)
                (ap (λ (x : List ℕ). x ∷ contents s') same
                  ∙ sym (contents-store_read_pos t.writer t.segment valid some_there))
            ∙ in_order;
      }

  pub waking_producer-Inv : t.consumer ≡ advanced → Inv (producer_woken t)
  unfolding wake_producer contents published
  waking_producer-Inv e =
      let same : SameFronts t.segment (wake_producer t.segment) = record {
        capacity = refl;
        item = refl;
        read = refl;
        commit = refl;
        write = refl;
      } in
      record {
        valid = SameFronts-IsValid t.writer t.segment (wake_producer t.segment) same valid;
        producer_knows =
            ProducerKnows-kept t.writer t.segment (wake_producer t.segment) t.producer
              (record {
                capacity = refl;
                item = refl;
                write = refl;
                commit = refl;
                read = omega arith;
              })
              producer_knows;
        consumer_knows = tt;
        in_order = in_order;
      }
