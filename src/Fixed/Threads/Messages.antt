-- ===== src/Fixed/Threads/Messages.antt =====
-- What a write to the reserved slot, a commit and an advance do to the messages of the ring.
use spscring.Base.{
  ℕ, suc, ◌+◌, ◌-◌, ◌*◌, ◌/◌, ◌%◌, ◌≤◌, ◌<◌, ◌≡◌, refl, ap, ◌∙◌, true, List, [], ◌∷◌, ◌++◌, length,
  arith, ◌⊎◌, add64, mul64, false,
}
use mathlib.Core.Path.{subst}
use native.Mathlib.Decide.{dec_lt}
use spscring.Fixed.Threads.Sides.{oldest}
use native.Mathlib.Nat.{add-mul-mod_self_right}
use spscring.Memory.{load, load-store_apart}
use spscring.Positions.{slots-apart, slot-before, div-eq-suc, add-IsMultiple}
use spscring.View.{Segment, store_commit_pos, store_read_pos, wake_producer}
use spscring.Fixed.{FixedWriter, fill, read_advance}
use spscring.Fixed.Consume.{contents-cons, read_pos-gap}
use spscring.Fixed.Valid.{IsValid}
use spscring.Fixed.Contents.{slots_from-suc, slots_from-agree, published, contents, contents-fields}
use spscring.Fixed.Refine.{published-mul, fill-bytes}

module _ (w : FixedWriter) (s : Segment) (v : IsValid w s) (e : w.pending ≡ true) where
  -- A published slot does not meet the reserved one.
  pub slot-apart :
      (i : ℕ)
      → i < published s
      → let at = (s.read_pos + i * s.fixed_item_size) % s.data_capacity in
        let slot = s.commit_pos % s.data_capacity in
        (at + s.fixed_item_size ≤ slot) ⊎ (slot + s.fixed_item_size ≤ at)
  slot-apart i below = ground (
    arith,
    slots-apart s.fixed_item_size s.data_capacity v.room v.whole
        (s.read_pos + i * s.fixed_item_size) s.commit_pos,
    slot-before i (published s) s.fixed_item_size below,
    published-mul w s v,
    v.reserved e,
    v.item,
    add-mul-mod_self_right s.read_pos i s.fixed_item_size,
  )

  module _ (payload : List ℕ) (small : length payload ≤ s.fixed_item_size) where
    abbrev slot : ℕ
    slot = s.commit_pos % s.data_capacity

    pub load-fill :
        (i : ℕ)
        → i < published s
        → let at = (s.read_pos + i * s.fixed_item_size) % s.data_capacity in
          load (fill slot payload s).bytes at s.fixed_item_size ≡ load s.bytes at s.fixed_item_size
    load-fill i below =
        let at = (s.read_pos + i * s.fixed_item_size) % s.data_capacity in
        ap (λ m. load m at s.fixed_item_size) (fill-bytes s slot payload)
        ∙ load-store_apart s.bytes slot payload at s.fixed_item_size
            (ground (arith, slot-apart i below))

-- A write to a slot moves nothing else.
pub record SameFronts (s t : Segment) : Type 0 where
  pub capacity : t.data_capacity ≡ s.data_capacity
  pub item : t.fixed_item_size ≡ s.fixed_item_size
  pub read : t.read_pos ≡ s.read_pos
  pub commit : t.commit_pos ≡ s.commit_pos
  pub write : t.write_pos ≡ s.write_pos

pub fill-SameFronts :
    (slot : ℕ) (payload : List ℕ) (s : Segment) → SameFronts s (fill slot payload s)
unfolding fill
fill-SameFronts slot payload s = ground arith

SameFronts-published : (s t : Segment) → SameFronts s t → published t ≡ published s
unfolding published
SameFronts-published s t f = λ i. (f.commit i - f.read i) / f.item i

-- The messages are not touched by writes to the reserved slot.
pub contents-fill :
    (w : FixedWriter) (s : Segment) (payload : List ℕ)
    → IsValid w s
    → w.pending ≡ true
    → length payload ≤ s.fixed_item_size
    → contents (fill (s.commit_pos % s.data_capacity) payload s) ≡ contents s
unfolding contents
contents-fill w s payload v e small =
    let slot = s.commit_pos % s.data_capacity in
    let t = fill slot payload s in
    let f = fill-SameFronts slot payload s in
    contents-fields t s.data_capacity s.fixed_item_size s.read_pos (published s) t.bytes f.capacity
      f.item refl f.read (SameFronts-published s t f)
    ∙ slots_from-agree s.data_capacity s.fixed_item_size t.bytes s.bytes s.read_pos (published s)
        (load-fill w s v e payload small)

-- The reserved slot, as it stands, becomes the newest message.
pub contents-store_commit_pos :
    (w : FixedWriter) (s : Segment)
    → IsValid w s
    → w.pending ≡ true
    → contents (store_commit_pos w.reserved_end s)
      ≡ contents s ++ load s.bytes (s.commit_pos % s.data_capacity) s.fixed_item_size ∷ []
unfolding contents published store_commit_pos
contents-store_commit_pos w s v e =
    let t = store_commit_pos w.reserved_end s in
    let held = published-mul w s v in
    let (next, end) = v.reserved e in
    let counted : published t ≡ suc (published s) =
      div-eq-suc (w.reserved_end - s.read_pos) (published s) s.fixed_item_size v.item
        (omega (arith, held, next, end, v.read_le)) in
    contents-fields t s.data_capacity s.fixed_item_size s.read_pos (suc (published s)) s.bytes refl
      refl refl refl counted
    ∙ slots_from-suc s.data_capacity s.fixed_item_size s.bytes s.read_pos (published s) s.commit_pos
        held

abbrev pub next_read_pos : Segment → ℕ
next_read_pos s = add64 s.read_pos (mul64 1 s.fixed_item_size)

-- The oldest message goes when read_pos moves on by one slot.
pub contents-store_read_pos :
    (w : FixedWriter) (s : Segment)
    → IsValid w s
    → s.read_pos < s.commit_pos
    → contents s
      ≡ load s.bytes (s.read_pos % s.data_capacity) s.fixed_item_size
        ∷ contents (store_read_pos (next_read_pos s) s)
unfolding contents published wake_producer read_advance
contents-store_read_pos w s v lt = contents-cons w s v lt

pub store_read_pos-IsValid :
    (w : FixedWriter) (s : Segment)
    → IsValid w s
    → s.read_pos < s.commit_pos
    → (next_read_pos s ≡ s.read_pos + s.fixed_item_size)
      × IsValid w (store_read_pos (next_read_pos s) s)
unfolding store_read_pos
store_read_pos-IsValid w s v lt =
    let gap = read_pos-gap w s v lt in
    let next : next_read_pos s ≡ s.read_pos + s.fixed_item_size = ground (arith, gap) in
    let step = add-IsMultiple s.fixed_item_size s.read_pos v.read_slot in
    (
      next,
      record {
        ring = record {
          item = v.item;
          item_fits = v.item_fits;
          room = v.room;
          capacity_fits = v.capacity_fits;
          whole = v.whole;
        };
        read_le = omega (arith, next, gap);
        write_le = omega (arith, next, v.write_le);
        write_fits = v.write_fits;
        read_slot = rw next step;
        commit_slot = v.commit_slot;
        free = v.free;
        reserved = v.reserved;
      },
    )

pub SameFronts-IsValid :
    (w : FixedWriter) (s t : Segment) → SameFronts s t → IsValid w s → IsValid w t
SameFronts-IsValid w s t f v = ground (arith, f)

pub committed-IsValid :
    (w : FixedWriter) (s : Segment)
    → IsValid w s
    → w.pending ≡ true
    → IsValid (record w { pending = false }) (store_commit_pos w.reserved_end s)
unfolding store_commit_pos
committed-IsValid w s v e =
    ground (arith, add-IsMultiple s.fixed_item_size s.commit_pos, v.reserved e)

published_pos :
    (w : FixedWriter) (s : Segment) → IsValid w s → s.read_pos < s.commit_pos → 0 < published s
published_pos w s v lt = elim (dec_lt 0 (published s)) [
  | yes some_there ↦ some_there
  | no none_there ↦
      let zero_there : published s ≡ 0 = omega arith in
      absurd (omega (arith, published-mul w s v, ap (λ (n : ℕ). n * s.fixed_item_size) zero_there))
]

-- The oldest message is not touched by writes to the reserved slot.
pub oldest-fill :
    (w : FixedWriter) (s : Segment)
    → IsValid w s
    → w.pending ≡ true
    → (payload : List ℕ) → length payload ≤ s.fixed_item_size
    → s.read_pos < s.commit_pos
    → oldest (fill (s.commit_pos % s.data_capacity) payload s) ≡ oldest s
oldest-fill w s v e payload small lt =
    let slot = s.commit_pos % s.data_capacity in
    let t = fill slot payload s in
    let f = fill-SameFronts slot payload s in
    let first : s.read_pos + 0 * s.fixed_item_size ≡ s.read_pos = omega arith in
    (λ i. load t.bytes (f.read i % f.capacity i) (f.item i))
    ∙ subst
        (λ p.
          load t.bytes (p % s.data_capacity) s.fixed_item_size
          ≡ load s.bytes (p % s.data_capacity) s.fixed_item_size)
        first (load-fill w s v e payload small 0 (published_pos w s v lt))
