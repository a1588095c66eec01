-- ===== src/Varlen/Threads/Slots.antt =====
-- The headers, payloads and commits of the producer keep the invariant.
use native.Mathlib.Nat.{mod-lt}
use mathlib.Core.Path.{subst}
use spscring.Base.{
  ℕ, ◌+◌, ◌%◌, ◌≤◌, ◌<◌, ◌≡◌, ◌⊎◌, sym, ap, ◌∙◌, true, List, length, arith, u32, inl, inr,
}
use spscring.Memory.{Memory, store, store-Outside, Outside, load-store_apart}
use spscring.Varlen.Header.{
  SlotHeader, no_meta, header_bytes, store_header, load_slot_size, load_payload_size, load_meta,
  from_bytes,
}
use spscring.Varlen.Writer.{VarlenWriter, store_slot}
use spscring.Varlen.Chain.{load_meta-agree}
use spscring.Varlen.Layout.{header_roundtrip, length-header_bytes}
use spscring.Varlen.Threads.{
  Request, ProducerPc, pad_won, pad_stored, slot_won, filling, Threads, needed, padding,
  padding_stored, slot_stored, payload_written,
}
use spscring.Varlen.Threads.Invariant.{
  Ring, ring_of, gap, slot_size, ProducerKnows, Inv, producer_at,
}
use spscring.Varlen.Threads.Room.{gap-facts, slot-facts}
use spscring.Varlen.Threads.Stores.{HoldsIn-kept, ConsumerKnows-stored}

module _ (t : Threads) (inv : Inv t) where
  open inv use {fronts, producer_knows, consumer_knows, held, holds, in_order}

  abbrev ring : Ring
  ring = ring_of t.segment

  abbrev at : ℕ
  at = t.commit_pos % t.data_capacity

  -- A store in the stretch that the producer has reserved.
  stored :
      (n : ℕ) (w : VarlenWriter) (p : ProducerPc) (k : Memory)
      → 0 < n
      → n ≤ gap ring t.commit_pos
      → t.commit_pos + n ≤ t.write_pos
      → ((i : ℕ) → i < t.data_capacity → Outside at n i → t.bytes i ≡ k i)
      → ProducerKnows w (record ring { bytes = k }) p
      → Inv (record t { segment = record t.segment { bytes = k }; writer = w; producer = p })
  stored n w p k pos fits below same knows = record {
    fronts = record {
      alignment = fronts.alignment;
      word = fronts.word;
      room = fronts.room;
      aligned = fronts.aligned;
      commit_slot = fronts.commit_slot;
      read_le = fronts.read_le;
      commit_le = fronts.commit_le;
      write_le = fronts.write_le;
      small = fronts.small;
    };
    producer_knows = knows;
    consumer_knows =
        ConsumerKnows-stored ring fronts n pos fits below k same holds t.consumer consumer_knows;
    held = held;
    holds = HoldsIn-kept ring fronts n pos fits below k same holds;
    in_order = in_order;
  }

  -- A header at the front of the stretch: 32 bytes, of which those past the end of the region are
  -- no concern of the consumer's.
  header-Outside :
      (n head : ℕ) (h : SlotHeader)
      → head ≡ t.commit_pos
      → (32 ≤ n) ⊎ (at + n ≡ t.data_capacity)
      → (i : ℕ) → i < t.data_capacity
      → Outside at n i
      → t.bytes i ≡ store_header t.bytes (head % t.data_capacity) h i
  unfolding store_header
  header-Outside n head h e long i lt out = sym (
      store-Outside t.bytes (head % t.data_capacity) (header_bytes h) i
        (ground (arith, out, long, ap (λ p. p % t.data_capacity) e, length-header_bytes h, lt)))

  pub store_padding-Inv :
      (r : Request) (head : ℕ) → t.producer ≡ pad_won r head → Inv (padding_stored r head t)
  unfolding store_slot padding
  store_padding-Inv r head e =
      let (free, served, (now, next, fits), short) = producer_at t inv e in
      let (multiple, low, whole) = gap-facts ring fronts in
      let (_, _, word) = slot-facts r ring fronts served in
      let n = gap ring t.commit_pos in
      let place : head % t.data_capacity ≡ at = ap (λ p. p % t.data_capacity) now in
      let h : SlotHeader = record {
        slot_size = u32 (padding t.segment head);
        payload_size = 0;
        meta = no_meta;
      } in
      let size : u32 (padding t.segment head) ≡ n =
        omega (arith, place, mod-lt t.commit_pos fronts.room, fronts.small) in
      let k = store_header t.bytes (head % t.data_capacity) h in
      let (a, b, _) = header_roundtrip t.bytes (head % t.data_capacity) h (record {
        slot_size = omega arith;
        payload_size = omega arith;
        user_data = omega arith;
        timestamp_ns = omega arith;
        schema_id = omega arith;
        flags = omega arith;
      }) in
      stored n t.writer (pad_stored r head) k (omega arith) fits (omega arith)
        (header-Outside n head h now (inr whole))
        (
          free,
          served,
          (now, next, fits),
          ap (load_slot_size k) (sym place) ∙ a ∙ size,
          ap (load_payload_size k) (sym place) ∙ b,
        )

  pub store_header-Inv :
      (r : Request) (head : ℕ) → t.producer ≡ slot_won r head → Inv (slot_stored r head t)
  unfolding store_slot needed
  store_header-Inv r head e =
      let (free, served, (now, next, fits)) = producer_at t inv e in
      let (above, multiple, word) = slot-facts r ring fronts served in
      let n = slot_size r ring in
      let place : head % t.data_capacity ≡ at = ap (λ p. p % t.data_capacity) now in
      let h : SlotHeader = record { slot_size = n; payload_size = r.payload_size; meta = r.meta } in
      let k = store_header t.bytes (head % t.data_capacity) h in
      let meta = served.0.meta in
      let (a, b, c) = header_roundtrip t.bytes (head % t.data_capacity) h (record {
        slot_size = word;
        payload_size = omega arith;
        user_data = meta.user_data;
        timestamp_ns = meta.timestamp_ns;
        schema_id = meta.schema_id;
        flags = meta.flags;
      }) in
      stored n (record t.writer { pending = true; last_position = head }) (filling r head) k
        (omega arith) fits (omega arith) (header-Outside n head h now (inl (omega arith)))
        (
          served,
          (now, next, fits),
          ap (load_slot_size k) (sym place) ∙ a,
          ap (load_payload_size k) (sym place) ∙ b,
          ap (load_meta k) (sym place) ∙ c,
        )

  -- The producer's writes stay behind the header and within the slot.
  pub write_payload-Inv :
      (r : Request) (position from : ℕ) (bs : List ℕ)
      → t.producer ≡ filling r position
      → from + length bs ≤ r.payload_size
      → Inv (payload_written position from bs t)
  unfolding load_slot_size load_payload_size
  write_payload-Inv r position from bs e small =
      let (served, (now, next, fits), size, payload, meta_there) = producer_at t inv e in
      let (above, multiple, word) = slot-facts r ring fronts served in
      let n = slot_size r ring in
      let place : position % t.data_capacity ≡ at = ap (λ p. p % t.data_capacity) now in
      let to = position % t.data_capacity + 32 + from in
      let k = store t.bytes to bs in
      stored n t.writer t.producer k (omega arith) fits (omega arith)
        (λ i lt out. sym (store-Outside t.bytes to bs i (ground (arith, out, place))))
        (subst (ProducerKnows t.writer (record ring { bytes = k })) (sym e) (
          served,
          (now, next, fits),
          ap from_bytes (load-store_apart t.bytes to bs at 4 (inl (omega (arith, place)))) ∙ size,
          ap from_bytes (load-store_apart t.bytes to bs (at + 4) 4 (inl (omega (arith, place))))
              ∙ payload,
          load_meta-agree k t.bytes at (λ from len low high.
                load-store_apart t.bytes to bs from len (inl (omega (arith, place))))
              ∙ meta_there,
        ))
