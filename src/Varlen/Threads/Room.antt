-- ===== src/Varlen/Threads/Room.antt =====
-- The room that a round of try_reserve has found, and the sizes of the slots.
use native.Mathlib.Nat.{mod-lt, zero-mod}
use spscring.Base.{ℕ, ◌+◌, ◌-◌, ◌%◌, ◌≤◌, ◌<◌, ◌≡◌, u32_mod, u64_mod, arith}
use spscring.Positions.{sub-IsMultiple, mod-IsMultiple, gap-of-multiples}
use spscring.View.{Segment}
use spscring.Varlen.Writer.{needed_size}
use spscring.Varlen.Align.{needed_size-lt, needed_size-IsRounded}
use spscring.Varlen.Threads.{Request, Decision, decide, needed, padding}
use spscring.Varlen.Threads.Invariant.{Ring, Fronts, gap, slot_size, IsServed}

-- With a read_pos that may be out of date, a slot is taken only where there is room for it.
module _ (s : Segment) (q : Request) (head read : ℕ) (room : 0 < s.data_capacity)
    (low : read ≤ head) (within : head ≤ read + s.data_capacity)
    (fits : needed_size q.payload_size s.data_alignment ≤ s.data_capacity)
    (space : head + s.data_capacity + s.data_capacity < u64_mod) where
  pub decide-pad :
      decide s q head read ≡ Decision.pad
      → (head + needed_size q.payload_size s.data_alignment ≤ read + s.data_capacity)
        × (s.data_capacity - head % s.data_capacity < needed_size q.payload_size s.data_alignment)
        × (padding s head ≡ s.data_capacity - head % s.data_capacity)
  unfolding decide needed padding
  decide-pad h = ground (arith, h, mod-lt head room)

  pub decide-take :
      decide s q head read ≡ Decision.take
      → (head + needed_size q.payload_size s.data_alignment ≤ read + s.data_capacity)
        × (needed_size q.payload_size s.data_alignment ≤ s.data_capacity - head % s.data_capacity)
  unfolding decide needed padding
  decide-take h = ground (arith, h, mod-lt head room)

-- The gap to the end of the region is a slot's size.
pub gap-facts :
    (r : Ring)
    → Fronts r
    → (gap r r.commit % r.alignment ≡ 0)
      × (8 ≤ gap r r.commit)
      × (r.commit % r.capacity + gap r r.commit ≡ r.capacity)
gap-facts r f =
    let lt = mod-lt r.commit f.room in
    let multiple =
      sub-IsMultiple r.alignment (r.commit % r.capacity) r.capacity
        (mod-IsMultiple r.alignment r.capacity f.room f.aligned r.commit f.commit_slot) f.aligned
        (omega arith) in
    let le =
      gap-of-multiples r.alignment 0 (gap r r.commit) (zero-mod r.alignment) multiple
        (omega arith) in
    (multiple, omega (arith, f.word), omega arith)

pub alignment-le-gap : (r : Ring) → Fronts r → r.alignment ≤ gap r r.commit
alignment-le-gap r f =
    let (multiple, low, whole) = gap-facts r f in
    omega (
      arith,
      gap-of-multiples r.alignment 0 (gap r r.commit) (zero-mod r.alignment) multiple (omega arith),
    )

-- The slot for a message is large enough, and a multiple of the alignment.
pub slot-facts :
    (q : Request) (r : Ring)
    → Fronts r
    → IsServed q r
    → (32 + q.payload_size ≤ slot_size q r)
      × (slot_size q r % r.alignment ≡ 0)
      × (slot_size q r < u32_mod)
slot-facts q r f (m, fits) =
    let rounded = needed_size-IsRounded q.payload_size r.alignment f.alignment m.size in
    (
      omega (arith, rounded.above),
      rounded.multiple,
      needed_size-lt q.payload_size r.alignment f.alignment,
    )
