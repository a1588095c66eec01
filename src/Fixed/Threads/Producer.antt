-- ===== src/Fixed/Threads/Producer.antt =====
-- Each access of the producer keeps the invariant.
use mathlib.Core.Path.{subst, ap₂}
use native.Mathlib.Decide.{dec_lt}
use spscring.Base.{
  ℕ, ◌+◌, ◌%◌, ◌≤◌, ◌<◌, ◌≡◌, refl, sym, ap, ◌∙◌, true, List, [], ◌∷◌, ◌++◌, append_assoc, Option,
  none, some, length, u64_mod, arith,
}
use spscring.Memory.{load}
use spscring.View.{Segment, store_write_pos, store_commit_pos, wake_consumer}
use spscring.Fixed.{FixedWriter, reserve_from, fill}
use spscring.Fixed.Valid.{IsValid, ring_is_full_lem, reserved_segment, reserved_segment-IsValid}
use spscring.Fixed.Contents.{contents, published}
use spscring.Fixed.Threads.{
  loaded_both, filling, ProducerPc, consumer_woken, Threads, Reserving, load_write_pos, find_full,
  reserve, filled, committed, ProducerPc,
}
use spscring.Fixed.Threads.Sides.{ConsumerKnows-kept, ProducerKnows-kept}
use spscring.Fixed.Threads.Messages.{
  SameFronts, SameFronts-IsValid, oldest-fill, committed-IsValid, contents-fill,
  contents-store_commit_pos, fill-SameFronts,
}
use spscring.Fixed.Threads.Invariant.{Inv, producer_at}

-- With a read_pos that may be out of date, the full test refuses a full round from there.
module _ (w : FixedWriter) (s : Segment) (v : IsValid w s) (read : ℕ) (low : read ≤ s.read_pos)
    (within : s.write_pos ≤ read + s.data_capacity) where
  reserve_from-full :
      s.write_pos ≡ read + s.data_capacity → reserve_from s.write_pos read w s ≡ (none, w, s)
  unfolding reserve_from
  reserve_from-full e = ground (arith, ring_is_full_lem s.data_capacity s.write_pos read)

  pub reserve_from-ok :
      s.write_pos < read + s.data_capacity
      → s.write_pos + s.fixed_item_size < u64_mod
      → reserve_from s.write_pos read w s ≡ (
        some (s.write_pos % s.data_capacity),
        record { reserved_end = s.write_pos + s.fixed_item_size; pending = true },
        reserved_segment s,
      )
  unfolding reserve_from
  reserve_from-ok lt room = ground (arith, ring_is_full_lem s.data_capacity s.write_pos read)

abbrev AfterReserve : Threads → Option ℕ × FixedWriter × Segment → Type 0
AfterReserve t (none, w', s') = Unit {0}
AfterReserve t (some slot, w', s') =
    Inv (record t { producer = filling slot; writer = w'; segment = s' })

module _ (t : Threads) (inv : Inv t) where
  open inv use {valid, producer_knows, consumer_knows, in_order}

  reserve-Inv :
      (write read : ℕ)
      → t.producer ≡ loaded_both write read
      → t.write_pos + t.fixed_item_size < u64_mod
      → AfterReserve t (reserve_from write read t.writer t.segment)
  unfolding store_write_pos contents published
  reserve-Inv write read e room =
      let (free, now, low, within, aligned) = producer_at t inv e in
      rw now (elim (dec_lt t.write_pos (read + t.data_capacity)) [
        | yes lt ↦
            rw (reserve_from-ok t.writer t.segment valid read low (omega arith) lt room) (record {
              valid = reserved_segment-IsValid t.writer t.segment valid room free (omega arith);
              producer_knows = (refl, ap (λ p. p % t.data_capacity) (valid.free free));
              consumer_knows =
                  ConsumerKnows-kept t.segment (reserved_segment t.segment) t.consumer
                    (record {
                      capacity = refl;
                      read = refl;
                      commit = omega arith;
                      message = λ _. refl;
                    })
                    consumer_knows;
              in_order = in_order;
            })
        | no ge ↦
            rw (reserve_from-full t.writer t.segment valid read low (omega arith) (omega arith)) tt
      ])

  pub Reserving-Inv : {t' : Threads} → Reserving t t' → Inv t'
  Reserving-Inv (load_write_pos e free) = record {
    valid = valid;
    producer_knows = (free, refl);
    consumer_knows = consumer_knows;
    in_order = in_order;
  }
  Reserving-Inv (Reserving.load_read_pos write e) =
      let (free, now) = producer_at t inv e in
      record {
        valid = valid;
        producer_knows = (free, now, omega arith, omega (arith, valid.write_le), valid.read_slot);
        consumer_knows = consumer_knows;
        in_order = in_order;
      }
  Reserving-Inv (find_full write read e full) = record {
    valid = valid;
    producer_knows = (producer_at t inv e).0;
    consumer_knows = consumer_knows;
    in_order = in_order;
  }
  Reserving-Inv (reserve write read slot w' s' e room h) =
      subst (AfterReserve t) h (reserve-Inv write read e room)

  pub filling_in-Inv :
      (slot : ℕ) (payload : List ℕ)
      → t.producer ≡ filling slot
      → length payload ≤ t.fixed_item_size
      → Inv (filled slot payload t)
  filling_in-Inv slot payload e small =
      let (held, at) = producer_at t inv e in
      let s' = fill (t.commit_pos % t.data_capacity) payload t.segment in
      let f = fill-SameFronts (t.commit_pos % t.data_capacity) payload t.segment in
      subst (λ p. Inv (filled p payload t)) (sym at)
        (record {
          valid = SameFronts-IsValid t.writer t.segment s' f valid;
          producer_knows =
              ProducerKnows-kept t.writer t.segment s' t.producer
                (record {
                  capacity = f.capacity;
                  item = f.item;
                  write = f.write;
                  commit = f.commit;
                  read = omega (arith, f.read);
                })
                producer_knows;
          consumer_knows =
              ConsumerKnows-kept t.segment s' t.consumer
                (record {
                  capacity = f.capacity;
                  read = f.read;
                  commit = omega (arith, f.commit);
                  message = λ lt. oldest-fill t.writer t.segment valid held payload small lt;
                })
                consumer_knows;
          in_order =
              ap (λ q. t.received ++ q) (contents-fill t.writer t.segment payload valid held small)
              ∙ in_order;
        })

  pub committing-Inv : (slot : ℕ) → t.producer ≡ filling slot → Inv (committed slot t)
  unfolding store_commit_pos
  committing-Inv slot e =
      let (held, at) = producer_at t inv e in
      let (next, end) = valid.reserved held in
      let s' = store_commit_pos t.writer.reserved_end t.segment in
      record {
        valid = committed-IsValid t.writer t.segment valid held;
        producer_knows = refl;
        consumer_knows =
            ConsumerKnows-kept t.segment s' t.consumer
              (record { capacity = refl; read = refl; commit = omega arith; message = λ _. refl })
              consumer_knows;
        in_order =
            ap (λ q. t.received ++ q) (contents-store_commit_pos t.writer t.segment valid held)
            ∙ sym (append_assoc t.received (contents t.segment) _)
            ∙ ap₂ (λ q p. q ++ load t.bytes p t.fixed_item_size ∷ []) in_order (sym at);
      }

  pub waking_consumer-Inv : t.producer ≡ ProducerPc.published → Inv (consumer_woken t)
  unfolding wake_consumer contents published
  waking_consumer-Inv e =
      let same : SameFronts t.segment (wake_consumer t.segment) = record {
        capacity = refl;
        item = refl;
        read = refl;
        commit = refl;
        write = refl;
      } in
      record {
        valid = SameFronts-IsValid t.writer t.segment (wake_consumer t.segment) same valid;
        producer_knows = producer_at t inv e;
        consumer_knows =
            ConsumerKnows-kept t.segment (wake_consumer t.segment) t.consumer
              (record { capacity = refl; read = refl; commit = omega arith; message = λ _. refl })
              consumer_knows;
        in_order = in_order;
      }
