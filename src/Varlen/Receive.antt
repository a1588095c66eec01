-- ===== src/Varlen/Receive.antt =====
-- `read` against the list of messages in the ring.
use mathlib.Core.Path.{subst}
use spscring.Base.{
  ℕ, zero, suc, List, [], ◌∷◌, ◌+◌, ◌-◌, ◌%◌, ◌≤◌, ◌<◌, ◌≡◌, sym, ap, ◌∙◌, length, Bool, true,
  false, Option, some, u64_mod, add64, arith, Bool-cases, inl, inr,
}
use spscring.Memory.{load}
use spscring.Positions.{add-IsMultiple-of}
use spscring.View.{Segment, store_read_pos, wake_producer}
use spscring.Varlen.Header.{load_slot_size, load_payload_size, load_meta}
use spscring.Varlen.Writer.{VarlenWriter}
use spscring.Varlen.Reader.{
  Message, ReadResult, nothing, return, continue, skip_slot, message_at, read_round, read_loop,
  read,
}
use spscring.Varlen.Chain.{Chain, done, pad, item, Chain-le}
use spscring.Varlen.Valid.{IsValid}
use spscring.Varlen.Send.{Holds}

-- What `read` comes to on a ring that holds ms: on none it returns false and shows none; the first
-- message is shown to the handler, and is off the ring exactly if the handler takes it, which the
-- result tells. The ring stays valid for its writer.
pub data Received (handler : Message → Bool) (w : VarlenWriter)
    : List Message → Option (ReadResult × Segment) → Type 0 where
  empty : {s' : Segment} → IsValid w s' → Holds s' [] → Received handler w [] (some (nothing, s'))
  kept :
      {x : Message} {ms : List Message} {s' : Segment}
      → handler x ≡ false
      → IsValid w s'
      → Holds s' (x ∷ ms)
      → Received handler w (x ∷ ms) (some (record { consumed = false; shown = some x }, s'))
  taken :
      {x : Message} {ms : List Message} {s' : Segment}
      → handler x ≡ true
      → 0 < length x.payload
      → IsValid w s'
      → Holds s' ms
      → Received handler w (x ∷ ms) (some (record { consumed = true; shown = some x }, s'))

module _ (handler : Message → Bool) (w : VarlenWriter) (s : Segment) (v : IsValid w s)
    (room : s.commit_pos < u64_mod) where
  abbrev index : ℕ
  index = s.read_pos % s.data_capacity

  round-empty : s.read_pos ≡ s.commit_pos → read_round handler s ≡ return nothing s
  unfolding read_round
  round-empty e = ground arith

  module _ (size : ℕ) (step : size % s.data_alignment ≡ 0) (pos : 8 ≤ size)
      (le : s.read_pos + size ≤ s.commit_pos) (at_size : load_slot_size s.bytes index ≡ size) where
    skip_slot-IsValid : IsValid w (skip_slot s.read_pos size s)
    unfolding skip_slot store_read_pos wake_producer
    skip_slot-IsValid =
        let sum : add64 s.read_pos size ≡ s.read_pos + size = omega arith in
        record {
          ring = record {
            alignment = v.alignment;
            word = v.word;
            room = v.room;
            aligned = v.aligned;
          };
          read_le = omega (arith, sum);
          commit_le = v.commit_le;
          write_le = omega (arith, sum, v.write_le);
          read_slot = rw sum (add-IsMultiple-of s.data_alignment s.read_pos size v.read_slot step);
          commit_slot = v.commit_slot;
          write_slot = v.write_slot;
          free = v.free;
          reserved = v.reserved;
        }

    skip_slot-Holds :
        {ms : List Message}
        → Chain s.bytes s.data_capacity s.data_alignment s.commit_pos (s.read_pos + size) ms
        → Holds (skip_slot s.read_pos size s) ms
    unfolding skip_slot store_read_pos wake_producer
    skip_slot-Holds {ms} c =
        let sum : s.read_pos + size ≡ add64 s.read_pos size = omega arith in
        subst (λ p. Chain s.bytes s.data_capacity s.data_alignment s.commit_pos p ms) sum c

    round-pad :
        load_payload_size s.bytes index ≡ 0
        → read_round handler s ≡ continue (skip_slot s.read_pos size s)
    unfolding read_round
    round-pad none_there = rw (at_size, none_there) (ground arith)

    module _ (x : Message) (nonempty : 0 < length x.payload)
        (payload_size : load_payload_size s.bytes index ≡ length x.payload)
        (meta : load_meta s.bytes index ≡ x.meta)
        (payload : load s.bytes (index + 32) (length x.payload) ≡ x.payload) where
      message_at-item : message_at index s ≡ x
      unfolding message_at
      message_at-item = λ i. record {
        payload = (ap (load s.bytes (index + 32)) payload_size ∙ payload) i;
        meta = meta i;
      }

      round-take :
          handler x ≡ true
          → read_round handler s
            ≡ return (record { consumed = true; shown = some x }) (skip_slot s.read_pos size s)
      unfolding read_round
      round-take yes_ = rw (at_size, payload_size, payload, meta) (ground arith)

      round-keep :
          handler x ≡ false
          → read_round handler s ≡ return (record { consumed = false; shown = some x }) s
      unfolding read_round
      round-keep no_ = rw (at_size, payload_size, payload, meta) (ground arith)

-- The loop gets to the first message, if the fuel exceeds the distance that it can skip.
loop-Received :
    (handler : Message → Bool) (w : VarlenWriter) (fuel : ℕ) (s : Segment) {ms : List Message}
    → IsValid w s
    → s.commit_pos < u64_mod
    → s.commit_pos < s.read_pos + fuel
    → Holds s ms
    → Received handler w ms (read_loop fuel handler (continue s))
unfolding read_loop skip_slot store_read_pos wake_producer
loop-Received handler w zero s v room enough c = absurd (omega (arith, Chain-le c))
loop-Received handler w (suc fuel) s v room enough (done e) =
    subst (Received handler w [])
      (ap (read_loop fuel handler) (sym (round-empty handler w s v room e))) (empty v (done e))
loop-Received handler w (suc fuel) s {ms} v room enough (pad size al h fit a b c) =
    let le = Chain-le c in
    subst (Received handler w ms)
      (ap (read_loop fuel handler) (sym (round-pad handler w s v room size al h le a b)))
      (loop-Received handler w fuel (skip_slot s.read_pos size s)
        (skip_slot-IsValid handler w s v room size al h le a) room (omega arith)
        (skip_slot-Holds handler w s v room size al h le a c))
loop-Received handler w (suc fuel) s {ms} v room enough (item size x al p q fit a b d e c) =
    let le = Chain-le c in
    elim (Bool-cases (handler x)) [
      | inl yes_ ↦
          subst (Received handler w ms)
            (ap (read_loop fuel handler)
              (sym (round-take handler w s v room size al (omega arith) le a x p b d e yes_)))
            (taken yes_ p (skip_slot-IsValid handler w s v room size al (omega arith) le a)
              (skip_slot-Holds handler w s v room size al (omega arith) le a c))
      | inr no_ ↦
          subst (Received handler w ms)
            (ap (read_loop fuel handler)
              (sym (round-keep handler w s v room size al (omega arith) le a x p b d e no_)))
            (kept no_ v (item size x al p q fit a b d e c))
    ]

-- On a valid ring that holds ms `read` returns. On none it returns false; else the handler is shown
-- the first message, and the ring holds the rest or all of ms, as the handler takes it or not.
pub read-Received :
    (handler : Message → Bool) (w : VarlenWriter) (s : Segment) {ms : List Message}
    → IsValid w s
    → s.commit_pos < u64_mod
    → Holds s ms
    → Received handler w ms (read handler s)
unfolding read
read-Received handler w s v room c =
    loop-Received handler w (s.commit_pos - s.read_pos + 1) s v room (omega (arith, v.read_le)) c
