-- ===== src/Varlen/Threads/Publish.antt =====
-- What the producer commits is in the ring.
use native.Mathlib.Nat.{mod-lt}
use mathlib.Core.Path.{ap₂}
use spscring.Base.{
  ℕ, ◌+◌, ◌%◌, ◌≡◌, refl, sym, ap, ◌∙◌, List, [], ◌∷◌, ◌++◌, append-nil, append_assoc, arith, add64,
}
use spscring.Memory.{Memory, load, length-load}
use spscring.Positions.{add-IsMultiple-of}
use spscring.View.{store_commit_pos, wake_consumer}
use spscring.Varlen.Header.{load_slot_size, load_payload_size}
use spscring.Varlen.Reader.{Message, message_at}
use spscring.Varlen.Chain.{SameFront, Chain, done, pad, item, Chain-append}
use spscring.Varlen.Threads.{
  Request, idle, at_head, pad_stored, pad_committed, filling, published, Threads, padding,
  padding_committed, committed,
}
use spscring.Varlen.Threads.Invariant.{
  Ring, ring_of, Fronts, gap, slot_size, ConsumerKnows, HoldsIn, Inv, producer_at, message_in,
}
use spscring.Varlen.Threads.Room.{gap-facts, slot-facts}
use spscring.Varlen.Threads.Stores.{ConsumerKnows-kept}

SameFront-refl : (m : Memory) (at : ℕ) → SameFront m m at
SameFront-refl m at = record { payload_size = refl; meta = λ _. refl; payload = λ _. refl }

module _ (t : Threads) (inv : Inv t) where
  open inv use {fronts, producer_knows, consumer_knows, held, holds, in_order}

  abbrev ring : Ring
  ring = ring_of t.segment

  abbrev at : ℕ
  at = t.commit_pos % t.data_capacity

  -- commit_pos moves over the n bytes that have been reserved.
  abbrev after : ℕ → Ring
  after new_head = record ring { commit = new_head }

  module _ (n new_head : ℕ) (e : new_head ≡ t.commit_pos + n) (all : t.write_pos ≡ t.commit_pos + n)
      (step : n % t.data_alignment ≡ 0) where
    Fronts-after : Fronts (after new_head)
    Fronts-after = record {
      alignment = fronts.alignment;
      word = fronts.word;
      room = fronts.room;
      aligned = fronts.aligned;
      commit_slot =
          rw e (add-IsMultiple-of t.data_alignment t.commit_pos n fronts.commit_slot step);
      read_le = omega (arith, e, fronts.read_le);
      commit_le = omega (arith, e, all);
      write_le = fronts.write_le;
      small = fronts.small;
    }

    ConsumerKnows-after : ConsumerKnows (after new_head) t.consumer
    ConsumerKnows-after =
        ConsumerKnows-kept ring new_head t.write_pos t.bytes (omega (arith, e))
          (λ _. SameFront-refl t.bytes (t.read_pos % t.data_capacity)) t.consumer consumer_knows

    HoldsIn-after :
        {ms : List Message}
        → Chain t.bytes t.data_capacity t.data_alignment new_head t.commit_pos ms
        → HoldsIn (after new_head) (held ++ ms)
    HoldsIn-after c = Chain-append holds c

  pub commit_padding-Inv :
      (r : Request) (head : ℕ) → t.producer ≡ pad_stored r head → Inv (padding_committed r head t)
  unfolding store_commit_pos padding
  commit_padding-Inv r head e =
      let (free, served, (now, next, fits), size, payload) = producer_at t inv e in
      let (multiple, low, whole) = gap-facts ring fronts in
      let n = gap ring t.commit_pos in
      let place : head % t.data_capacity ≡ at = ap (λ p. p % t.data_capacity) now in
      let new_head = add64 head (padding t.segment head) in
      let sum : new_head ≡ t.commit_pos + n =
        omega (arith, place, mod-lt t.commit_pos fronts.room, fronts.small) in
      record {
        fronts = Fronts-after n new_head sum next multiple;
        producer_knows = ((free, next ∙ sym sum), sum ∙ sym next, served);
        consumer_knows = ConsumerKnows-after n new_head sum next multiple;
        held = held ++ [];
        holds =
            HoldsIn-after n new_head sum next multiple
              (pad n multiple low (omega arith) size payload (done (sym sum)));
        in_order = ap (λ q. t.received ++ q) (append-nil held) ∙ in_order;
      }

  pub commit-Inv :
      (r : Request) (position : ℕ) → t.producer ≡ filling r position → Inv (committed position t)
  unfolding store_commit_pos message_at
  commit-Inv r position e =
      let (served, (now, next, fits), size, payload, meta_there) = producer_at t inv e in
      let (above, multiple, word) = slot-facts r ring fronts served in
      let n = slot_size r ring in
      let place : position % t.data_capacity ≡ at = ap (λ p. p % t.data_capacity) now in
      let new_head = add64 position (load_slot_size t.bytes (position % t.data_capacity)) in
      let size_there : load_slot_size t.bytes (position % t.data_capacity) ≡ n =
        ap (load_slot_size t.bytes) place ∙ size in
      let sum : new_head ≡ t.commit_pos + n = omega (arith, size_there, fronts.small) in
      let len = length-load t.bytes (at + 32) (load_payload_size t.bytes at) in
      let served_message = served.0 in
      record {
        fronts = Fronts-after n new_head sum next multiple;
        producer_knows = (refl, next ∙ sym sum);
        consumer_knows = ConsumerKnows-after n new_head sum next multiple;
        held = held ++ message_in t.bytes at ∷ [];
        holds = HoldsIn-after n new_head sum next multiple (
            item n (message_in t.bytes at) multiple
              (omega (arith, len, payload, served_message.nonempty))
              (omega (arith, len, payload, above)) (omega (arith, mod-lt t.commit_pos fronts.room))
              size (sym len) refl (ap (load t.bytes (at + 32)) len) (done (sym sum)));
        in_order =
            sym (append_assoc t.received held (message_in t.bytes at ∷ []))
            ∙ ap₂ (λ q p. q ++ message_in t.bytes p ∷ []) in_order (sym place);
      }

  pub wake_for_padding-Inv :
      (r : Request) (new_head : ℕ)
      → t.producer ≡ pad_committed r new_head
      → Inv (record t { segment = wake_consumer t.segment; producer = at_head r new_head })
  unfolding wake_consumer
  wake_for_padding-Inv r new_head e = record {
    fronts = fronts;
    producer_knows = producer_at t inv e;
    consumer_knows = consumer_knows;
    held = held;
    holds = holds;
    in_order = in_order;
  }

  pub wake-Inv :
      t.producer ≡ published → Inv (record t { segment = wake_consumer t.segment; producer = idle })
  unfolding wake_consumer
  wake-Inv e = record {
    fronts = fronts;
    producer_knows = producer_at t inv e;
    consumer_knows = consumer_knows;
    held = held;
    holds = holds;
    in_order = in_order;
  }
