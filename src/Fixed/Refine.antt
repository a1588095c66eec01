-- ===== src/Fixed/Refine.antt =====
-- A fixed ring behaves as the bounded queue of its slots.
use spscring.Base.{
  ℕ, suc, ◌+◌, ◌-◌, ◌*◌, ◌/◌, ◌%◌, ◌≤◌, ◌<◌, ◌≡◌, refl, ap, ◌∙◌, List, [], ◌∷◌, ◌++◌, length, arith,
  true, false, ◌↔◌,
}
use mathlib.Core.Path.{ap₂}
use native.Mathlib.Decide.{dec_lt}
use spscring.Memory.{load, store, load-store_apart, load-store_prefix}
use spscring.View.{Segment, store_write_pos, store_commit_pos, wake_consumer}
use spscring.Queue.{enqueue}
use spscring.Fixed.{FixedWriter, fill, write, item_count, finish_write}
use native.Mathlib.Nat.{div-add-mod', add-mul-mod_self_right}
use spscring.Positions.{
  slots-apart, sub-IsMultiple, slot-before, div-eq-suc, count_iff, gap-of-multiples,
  add-IsMultiple-of, add-IsMultiple,
}
use spscring.Fixed.Valid.{IsValid, Headroom, reserved_segment, try_reserve-ok, try_reserve-full}
use spscring.Fixed.Contents.{
  slots_from-suc, slots_from-agree, published, contents, contents-fields, length-contents,
}

-- What a message becomes in a slot: its bytes, and behind them those of the slot's last use.
unfoldable pub slot_image : Segment → List ℕ → List ℕ
slot_image s payload =
    payload
    ++ load s.bytes (s.write_pos % s.data_capacity + length payload)
        (s.fixed_item_size - length payload)

-- The segment that `write` leaves when it succeeds.
abbrev written_segment : Segment → List ℕ → Segment
written_segment s payload = wake_consumer (
    store_commit_pos (s.write_pos + s.fixed_item_size)
      (fill (s.write_pos % s.data_capacity) payload (reserved_segment s)))

write-ok :
    (w : FixedWriter) (s : Segment) (payload : List ℕ)
    → IsValid w s
    → Headroom s
    → w.pending ≡ false
    → s.write_pos < s.read_pos + s.data_capacity
    → write w s payload ≡ (
      true,
      record { reserved_end = s.write_pos + s.fixed_item_size; pending = false },
      written_segment s payload,
    )
unfolding write
write-ok w s payload v room e lt = ap (finish_write payload) (try_reserve-ok w s v room e lt)

write-full :
    (w : FixedWriter) (s : Segment) (payload : List ℕ)
    → IsValid w s
    → s.write_pos ≡ s.read_pos + s.data_capacity
    → write w s payload ≡ (false, w, s)
unfolding write
write-full w s payload v e = ap (finish_write payload) (try_reserve-full w s v e)

-- `write_pos` stands `published` slots behind `read_pos` when nothing is reserved.
pub published-mul :
    (w : FixedWriter) (s : Segment)
    → IsValid w s
    → s.commit_pos ≡ s.read_pos + published s * s.fixed_item_size
unfolding published
published-mul w s v = omega (
  arith,
  div-add-mod' (s.commit_pos - s.read_pos) s.fixed_item_size,
  sub-IsMultiple s.fixed_item_size s.read_pos s.commit_pos v.read_slot v.commit_slot v.read_le,
)

-- The slots that hold messages do not meet the slot that `write` fills.
write_apart :
    (w : FixedWriter) (s : Segment) (payload : List ℕ)
    → IsValid w s
    → w.pending ≡ false
    → s.write_pos < s.read_pos + s.data_capacity
    → length payload ≤ s.fixed_item_size
    → (i : ℕ) → i < published s
    → load
        (store s.bytes (s.write_pos % s.data_capacity) payload)
        ((s.read_pos + i * s.fixed_item_size) % s.data_capacity)
        s.fixed_item_size
      ≡ load s.bytes ((s.read_pos + i * s.fixed_item_size) % s.data_capacity) s.fixed_item_size
write_apart w s payload v e lt small i below =
    load-store_apart s.bytes (s.write_pos % s.data_capacity) payload
      ((s.read_pos + i * s.fixed_item_size) % s.data_capacity) s.fixed_item_size
      (ground (
        arith,
        slots-apart s.fixed_item_size s.data_capacity v.room v.whole
            (s.read_pos + i * s.fixed_item_size) s.write_pos,
        slot-before i (published s) s.fixed_item_size below,
        published-mul w s v,
        add-mul-mod_self_right s.read_pos i s.fixed_item_size,
      ))

pub fill-bytes :
    (s : Segment) (at : ℕ) (payload : List ℕ) → (fill at payload s).bytes ≡ store s.bytes at payload
unfolding fill store
fill-bytes s at [] = refl
fill-bytes s at (b ∷ bs) = ground arith

record Written (s t : Segment) (payload : List ℕ) : Type 0 where
  capacity : t.data_capacity ≡ s.data_capacity
  item : t.fixed_item_size ≡ s.fixed_item_size
  bytes : t.bytes ≡ store s.bytes (s.write_pos % s.data_capacity) payload
  read : t.read_pos ≡ s.read_pos
  commit : t.commit_pos ≡ s.write_pos + s.fixed_item_size
  write : t.write_pos ≡ s.write_pos + s.fixed_item_size

written_segment-Written :
    (s : Segment) (payload : List ℕ) → Written s (written_segment s payload) payload
unfolding wake_consumer store_commit_pos store_write_pos fill store
written_segment-Written s [] = record {
  capacity = refl;
  item = refl;
  bytes = refl;
  read = refl;
  commit = refl;
  write = refl;
}
written_segment-Written s (b ∷ bs) = ground arith

published-Written :
    (w : FixedWriter) (s t : Segment) (payload : List ℕ)
    → IsValid w s
    → w.pending ≡ false
    → Written s t payload
    → published t ≡ suc (published s)
unfolding published
published-Written w s t payload v e f = grind (arith, published-mul w s v, div-eq-suc)

-- What `write` adds to the messages of the ring.
contents-Written :
    (w : FixedWriter) (s : Segment) (payload : List ℕ)
    → IsValid w s
    → w.pending ≡ false
    → s.write_pos < s.read_pos + s.data_capacity
    → length payload ≤ s.fixed_item_size
    → contents (written_segment s payload) ≡ contents s ++ slot_image s payload ∷ []
unfolding contents slot_image
contents-Written w s payload v e lt small =
    let t = written_segment s payload in
    let f = written_segment-Written s payload in
    let m = store s.bytes (s.write_pos % s.data_capacity) payload in
    contents-fields t s.data_capacity s.fixed_item_size s.read_pos (suc (published s)) m f.capacity
      f.item f.bytes f.read (published-Written w s t payload v e f)
    ∙ slots_from-suc s.data_capacity s.fixed_item_size m s.read_pos (published s) s.write_pos
        (omega (arith, published-mul w s v, v.free e))
    ∙ ap₂ (λ q x. q ++ x ∷ [])
        (slots_from-agree s.data_capacity s.fixed_item_size m s.bytes s.read_pos (published s)
          (write_apart w s payload v e lt small))
        (load-store_prefix s.bytes (s.write_pos % s.data_capacity) payload s.fixed_item_size small)

-- The ring is full exactly when it holds `item_count` messages.
full_iff :
    (w : FixedWriter) (s : Segment)
    → IsValid w s
    → w.pending ≡ false
    → (length (contents s) ≡ item_count s) ↔ (s.write_pos ≡ s.read_pos + s.data_capacity)
unfolding item_count
full_iff w s v e = rw (length-contents s) (
    count_iff (published s) (s.data_capacity / s.fixed_item_size) s.fixed_item_size s.write_pos
      s.read_pos s.data_capacity v.item (omega (arith, published-mul w s v, v.free e))
      (omega (arith, div-add-mod' s.data_capacity s.fixed_item_size, v.whole)))

-- `write` on a ring with no reservation outstanding is `enqueue` on the queue of its messages,
-- bounded by `item_count`: it returns false and changes nothing when the queue is full, and
-- otherwise appends the slot's new contents. The payload fits a slot.
pub write_refines :
    (w : FixedWriter) (s : Segment) (payload : List ℕ)
    → IsValid w s
    → Headroom s
    → w.pending ≡ false
    → length payload ≤ s.fixed_item_size
    → let (done, w', s') = write w s payload in
      ((done, contents s') ≡ enqueue (item_count s) (contents s) (slot_image s payload))
      × (done ≡ false → s' ≡ s)
unfolding enqueue
write_refines w s payload v room e small =
    let full = full_iff w s v e in
    elim (dec_lt s.write_pos (s.read_pos + s.data_capacity)) [
      | yes lt ↦
          rw (write-ok w s payload v room e lt)
            (ground (arith, full, contents-Written w s payload v e lt small))
      | no ge ↦ rw (write-full w s payload v (omega arith)) (ground (arith, full))
    ]

written-IsValid :
    (w : FixedWriter) (s : Segment) (payload : List ℕ)
    → IsValid w s
    → Headroom s
    → w.pending ≡ false
    → s.write_pos < s.read_pos + s.data_capacity
    → IsValid
        (record { reserved_end = s.write_pos + s.fixed_item_size; pending = false })
        (written_segment s payload)
written-IsValid w s payload v room e lt =
    let f = written_segment-Written s payload in
    let gap =
      gap-of-multiples s.fixed_item_size s.write_pos (s.read_pos + s.data_capacity)
        (rw (v.free e) v.commit_slot)
        (add-IsMultiple-of s.fixed_item_size s.read_pos s.data_capacity v.read_slot v.whole) lt in
    let step = add-IsMultiple s.fixed_item_size s.commit_pos v.commit_slot in
    ground (arith, f, gap, step, v.free e)

-- `write` keeps the invariant, and leaves no reservation outstanding.
pub write-IsValid :
    (w : FixedWriter) (s : Segment) (payload : List ℕ)
    → IsValid w s
    → Headroom s
    → w.pending ≡ false
    → let (done, w', s') = write w s payload in IsValid w' s' × (w'.pending ≡ false)
write-IsValid w s payload v room e = elim (dec_lt s.write_pos (s.read_pos + s.data_capacity)) [
  | yes lt ↦ rw (write-ok w s payload v room e lt) (written-IsValid w s payload v room e lt, refl)
  | no ge ↦ rw (write-full w s payload v (omega arith)) (v, e)
]
