-- ===== src/Varlen/Threads/Producer.antt =====
-- The positions that the producer loads and reserves keep the invariant.
use native.Mathlib.Nat.{mod-lt}
use spscring.Base.{ℕ, ◌+◌, ◌%◌, ◌≤◌, ◌<◌, ◌≡◌, refl, ap, ◌∙◌, u64_mod, arith, add64}
use spscring.View.{store_write_pos}
use spscring.Varlen.Threads.{
  Request, IsMessage, ProducerPc, idle, at_head, loaded_read, pad_won, slot_won, Threads, Decision,
  decide, needed, padding,
}
use spscring.Varlen.Threads.Invariant.{
  Ring, ring_of, gap, slot_size, ProducerKnows, Inv, producer_at,
}
use spscring.Varlen.Threads.Room.{decide-pad, decide-take}

module _ (t : Threads) (inv : Inv t) where
  open inv use {fronts, producer_knows, consumer_knows, held, holds, in_order}

  abbrev ring : Ring
  ring = ring_of t.segment

  -- The producer moves on with the segment as it is.
  pub moved : (p : ProducerPc) → ProducerKnows t.writer ring p → Inv (record t { producer = p })
  moved p k = record {
    fronts = fronts;
    producer_knows = k;
    consumer_knows = consumer_knows;
    held = held;
    holds = holds;
    in_order = in_order;
  }

  pub load_write_pos-Inv :
      (r : Request)
      → t.producer ≡ idle
      → IsMessage t.data_alignment r
      → needed t.segment r ≤ t.data_capacity
      → Inv (record t { producer = at_head r t.write_pos })
  unfolding needed
  load_write_pos-Inv r e m fits =
      moved (at_head r t.write_pos) (producer_at t inv e, refl, (m, fits))

  pub load_read_pos-Inv :
      (r : Request) (head : ℕ)
      → t.producer ≡ at_head r head
      → Inv (record t { producer = loaded_read r head t.read_pos })
  load_read_pos-Inv r head e =
      let (free, now, served) = producer_at t inv e in
      moved (loaded_read r head t.read_pos) (free, now, served, omega arith, fronts.write_le)

  -- write_pos moves ahead of commit_pos.
  reserved :
      (n : ℕ) (p : ProducerPc) (new_head : ℕ)
      → new_head ≡ t.write_pos + n
      → t.write_pos + n ≤ t.read_pos + t.data_capacity
      → t.write_pos + n < u64_mod
      → ProducerKnows t.writer (record ring { write = new_head }) p
      → Inv (record t { segment = store_write_pos new_head t.segment; producer = p })
  unfolding store_write_pos
  reserved n p new_head e under small k = record {
    fronts = record {
      alignment = fronts.alignment;
      word = fronts.word;
      room = fronts.room;
      aligned = fronts.aligned;
      commit_slot = fronts.commit_slot;
      read_le = fronts.read_le;
      commit_le = omega (arith, e, fronts.commit_le);
      write_le = omega (arith, e);
      small = omega (arith, e);
    };
    producer_knows = k;
    consumer_knows = consumer_knows;
    held = held;
    holds = holds;
    in_order = in_order;
  }

  pub win_padding-Inv :
      (r : Request) (head read : ℕ)
      → t.producer ≡ loaded_read r head read
      → decide t.segment r head read ≡ Decision.pad
      → t.write_pos + t.data_capacity + t.data_capacity < u64_mod
      → Inv (record t {
        segment = store_write_pos (add64 head (padding t.segment head)) t.segment;
        producer = pad_won r head;
      })
  win_padding-Inv r head read e h space =
      let ((free, empty), now, served, low, within) = producer_at t inv e in
      let (under, short, is_gap) =
        decide-pad t.segment r head read fronts.room (omega (arith, fronts)) (omega arith) served.1
          (omega arith) h in
      let at : head % t.data_capacity ≡ t.commit_pos % t.data_capacity =
        ap (λ p. p % t.data_capacity) (now ∙ empty) in
      let sum : add64 head (padding t.segment head) ≡ t.write_pos + gap ring t.commit_pos =
        rw is_gap (omega (arith, at, mod-lt t.commit_pos fronts.room)) in
      reserved (gap ring t.commit_pos) (pad_won r head) (add64 head (padding t.segment head)) sum
        (omega (arith, at)) (omega (arith, at, mod-lt t.commit_pos fronts.room))
        (free, served, (now ∙ empty, omega (arith, sum), omega arith), omega (arith, at))

  pub win_slot-Inv :
      (r : Request) (head read : ℕ)
      → t.producer ≡ loaded_read r head read
      → decide t.segment r head read ≡ Decision.take
      → t.write_pos + t.data_capacity + t.data_capacity < u64_mod
      → Inv (record t {
        segment = store_write_pos (add64 head (needed t.segment r)) t.segment;
        producer = slot_won r head;
      })
  unfolding needed
  win_slot-Inv r head read e h space =
      let ((free, empty), now, served, low, within) = producer_at t inv e in
      let (under, long) =
        decide-take t.segment r head read fronts.room (omega (arith, fronts)) (omega arith) served.1
          (omega arith) h in
      let at : head % t.data_capacity ≡ t.commit_pos % t.data_capacity =
        ap (λ p. p % t.data_capacity) (now ∙ empty) in
      let fits = served.1 in
      let n = slot_size r ring in
      let sum : add64 head n ≡ t.write_pos + n = omega arith in
      reserved n (slot_won r head) (add64 head n) sum (omega arith) (omega arith)
        (free, served, (now ∙ empty, omega (arith, sum), omega (arith, at)))
