-- ===== src/Fixed/Consume.antt =====
-- `read` takes the oldest message out of the queue that the ring holds.
use spscring.Base.{
  ℕ, suc, ◌+◌, ◌-◌, ◌%◌, ◌≤◌, ◌<◌, ◌≡◌, refl, ap, ◌∙◌, [], ◌∷◌, none, take, arith, sym,
}
use native.Mathlib.Nat.{zero-div}
use mathlib.Core.Option
use native.Mathlib.Decide.{dec_lt}
use spscring.Memory.{load, take-load}
use spscring.View.{Segment}
use spscring.Queue.{dequeue}
use spscring.Fixed.{FixedWriter, read_advance, read}
use spscring.Positions.{gap-of-multiples, suc_of_slots}
use spscring.Fixed.Valid.{IsValid, read_advance-IsValid}
use spscring.Fixed.Contents.{slots_from, published, contents, contents-fields}
use spscring.Fixed.Refine.{published-mul}

-- One slot of room follows `read_pos` wherever a message does.
pub read_pos-gap :
    (w : FixedWriter) (s : Segment)
    → IsValid w s
    → s.read_pos < s.commit_pos
    → s.read_pos + s.fixed_item_size ≤ s.commit_pos
read_pos-gap w s v lt =
    gap-of-multiples s.fixed_item_size s.read_pos s.commit_pos v.read_slot v.commit_slot lt

record Advanced (s t : Segment) : Type 0 where
  capacity : t.data_capacity ≡ s.data_capacity
  item : t.fixed_item_size ≡ s.fixed_item_size
  bytes : t.bytes ≡ s.bytes
  read : t.read_pos ≡ s.read_pos + s.fixed_item_size
  commit : t.commit_pos ≡ s.commit_pos

read_advance-Advanced :
    (w : FixedWriter) (s : Segment)
    → IsValid w s
    → s.read_pos < s.commit_pos
    → Advanced s (read_advance 1 s)
unfolding read_advance
read_advance-Advanced w s v lt = ground (arith, read_pos-gap w s v lt)

published-suc :
    (w : FixedWriter) (s : Segment)
    → IsValid w s
    → s.read_pos < s.commit_pos
    → published s ≡ suc (published (read_advance 1 s))
published-suc w s v lt =
    let t = read_advance 1 s in
    let f = read_advance-Advanced w s v lt in
    let gap = read_pos-gap w s v lt in
    let before = published-mul w s v in
    let after = published-mul w t (read_advance-IsValid w s 1 v (omega (arith, gap))) in
    suc_of_slots (published s) (published t) s.fixed_item_size v.item
      (ground (arith, f, before, after))

-- The messages of a ring that is not empty, and those after one is taken.
pub contents-cons :
    (w : FixedWriter) (s : Segment)
    → IsValid w s
    → s.read_pos < s.commit_pos
    → contents s
      ≡ load s.bytes (s.read_pos % s.data_capacity) s.fixed_item_size ∷ contents (read_advance 1 s)
unfolding slots_from
contents-cons w s v lt =
    let t = read_advance 1 s in
    let f = read_advance-Advanced w s v lt in
    let held = published-mul w s v in
    let counted = published-suc w s v lt in
    contents-fields s s.data_capacity s.fixed_item_size s.read_pos (suc (published t)) s.bytes refl
      refl refl refl counted
    ∙ ap (◌∷◌ (load s.bytes (s.read_pos % s.data_capacity) s.fixed_item_size)) (
        sym (
          contents-fields t s.data_capacity s.fixed_item_size (s.read_pos + s.fixed_item_size)
            (published t) s.bytes f.capacity f.item f.bytes f.read refl))

contents-nil : (w : FixedWriter) (s : Segment) → s.commit_pos ≤ s.read_pos → contents s ≡ []
unfolding contents published slots_from
contents-nil w s h = let e : s.commit_pos - s.read_pos ≡ 0 = omega arith in rw (e, zero-div)

-- `read` with a size up to the slot's is `dequeue` on the queue of the ring's messages: it returns
-- false and changes nothing when there is none, and otherwise copies out the start of the oldest
-- one, which is gone afterwards.
pub read_refines :
    (w : FixedWriter) (s : Segment) (size : ℕ)
    → IsValid w s
    → size ≤ s.fixed_item_size
    → let (out, s') = read size s in
      let (oldest, rest) = dequeue (contents s) in
      (out ≡ Option.map (take size) oldest) × (contents s' ≡ rest) × (out ≡ none → s' ≡ s)
unfolding read dequeue
read_refines w s size v small = elim (dec_lt s.read_pos s.commit_pos) [
  | yes lt ↦ rw (contents-cons w s v lt) (
      ground (arith, take-load s.bytes (s.read_pos % s.data_capacity) size s.fixed_item_size small))
  | no ge ↦ ground (arith, contents-nil w s)
]

-- `read` keeps the invariant.
pub read-IsValid :
    (w : FixedWriter) (s : Segment) (size : ℕ) → IsValid w s → IsValid w (read size s).1
unfolding read
read-IsValid w s size v = elim (dec_lt s.read_pos s.commit_pos) [
  | yes lt ↦
      let kept = read_advance-IsValid w s 1 v (omega (arith, read_pos-gap w s v lt)) in ground arith
  | no ge ↦ ground arith
]
