-- ===== src/Fixed/Valid.antt =====
-- The invariant of a fixed ring between two calls, and what keeps it.
use spscring.Base.{
  ◌==◌, Bool-cases, inl, inr, ℕ, ◌+◌, ◌*◌, ◌%◌, ◌≤◌, ◌<◌, ◌≡◌, ◌⊎◌, ◌↔◌, true, false, none, some,
  u64_mod, u32_mod, arith,
}
use spscring.View.{Segment, store_write_pos}
use spscring.Fixed.{FixedWriter, ring_is_full, try_reserve, commit, write, read_advance, read}
use native.Mathlib.Decide.{dec_lt}
use native.Mathlib.Nat.{add-mul-mod_self_right}
use spscring.Positions.{add-IsMultiple-of}
use spscring.Positions.{gap-of-multiples, add-IsMultiple, mod-eq_iff}

-- The geometry, which no call changes.
pub record IsFixedRing (s : Segment) : Type 0 where
  pub item : 0 < s.fixed_item_size
  pub item_fits : s.fixed_item_size < u32_mod
  pub room : 0 < s.data_capacity
  pub capacity_fits : s.data_capacity < u64_mod
  pub whole : s.data_capacity % s.fixed_item_size ≡ 0

-- The fronts, in order and within a round, all at slot boundaries; a reservation is the one slot
-- between `commit_pos` and `write_pos`.
pub record IsValid (w : FixedWriter) (s : Segment) : Type 0 where
  pub ring : IsFixedRing s
  pub open ring use *
  pub read_le : s.read_pos ≤ s.commit_pos
  pub write_le : s.write_pos ≤ s.read_pos + s.data_capacity
  pub write_fits : s.write_pos < u64_mod
  pub read_slot : s.read_pos % s.fixed_item_size ≡ 0
  pub commit_slot : s.commit_pos % s.fixed_item_size ≡ 0
  pub free : w.pending ≡ false → s.write_pos ≡ s.commit_pos
  pub reserved :
      w.pending ≡ true
      → (s.write_pos ≡ s.commit_pos + s.fixed_item_size) × (w.reserved_end ≡ s.write_pos)

-- Below this the 64-bit positions have not been used up.
abbrev pub Headroom : Segment → Type 0
Headroom s = s.write_pos + s.fixed_item_size < u64_mod

-- On fronts in order and within a round, comparing the indices finds exactly the full ring.
pub ring_is_full_lem :
    (capacity write read : ℕ)
    → 0 < capacity
    → read ≤ write
    → write ≤ read + capacity
    → ring_is_full capacity write read ≡ (write == read + capacity)
unfolding ring_is_full
ring_is_full_lem capacity write read pos h k = elim (dec_lt read write) [
  | yes p ↦ ground (arith, mod-eq_iff capacity read write)
  | no p ↦ ground arith
]

-- The segment after a successful reservation.
abbrev pub reserved_segment : Segment → Segment
reserved_segment s = store_write_pos (s.write_pos + s.fixed_item_size) s

-- `try_reserve` on each of its three branches.
pub try_reserve-pending :
    (w : FixedWriter) (s : Segment) → w.pending ≡ true → try_reserve w s ≡ (none, w, s)
unfolding try_reserve
try_reserve-pending w s h = rw h

pub try_reserve-full :
    (w : FixedWriter) (s : Segment)
    → IsValid w s
    → s.write_pos ≡ s.read_pos + s.data_capacity
    → try_reserve w s ≡ (none, w, s)
unfolding try_reserve
try_reserve-full w s v h = ground (arith, ring_is_full_lem s.data_capacity s.write_pos s.read_pos)

pub try_reserve-ok :
    (w : FixedWriter) (s : Segment)
    → IsValid w s
    → Headroom s
    → w.pending ≡ false
    → s.write_pos < s.read_pos + s.data_capacity
    → try_reserve w s ≡ (
      some (s.write_pos % s.data_capacity),
      record { reserved_end = s.write_pos + s.fixed_item_size; pending = true },
      reserved_segment s,
    )
unfolding try_reserve
try_reserve-ok w s v room h k =
    ground (arith, ring_is_full_lem s.data_capacity s.write_pos s.read_pos)

-- `try_reserve` refuses exactly when a reservation is pending or the ring holds a full round.
try_reserve-none_iff :
    (w : FixedWriter) (s : Segment)
    → IsValid w s
    → Headroom s
    → ((try_reserve w s).0 ≡ none)
      ↔ ((w.pending ≡ true) ⊎ (s.write_pos ≡ s.read_pos + s.data_capacity))
try_reserve-none_iff w s v room = elim (Bool-cases w.pending) [
  | inl e ↦ (λ _. inl e, λ _. rw (try_reserve-pending w s e))
  | inr e ↦ elim (dec_lt s.write_pos (s.read_pos + s.data_capacity)) [
    | yes lt ↦ ground (arith, try_reserve-ok w s v room e lt)
    | no ge ↦ ground (arith, try_reserve-full w s v)
  ]
]

pub reserved_segment-IsValid :
    (w : FixedWriter) (s : Segment)
    → IsValid w s
    → Headroom s
    → w.pending ≡ false
    → s.write_pos < s.read_pos + s.data_capacity
    → IsValid
        (record { reserved_end = s.write_pos + s.fixed_item_size; pending = true })
        (reserved_segment s)
unfolding store_write_pos
reserved_segment-IsValid w s v room e lt = ground (
  arith,
  gap-of-multiples s.fixed_item_size s.write_pos (s.read_pos + s.data_capacity),
  add-IsMultiple-of s.fixed_item_size s.read_pos s.data_capacity,
)

-- `try_reserve` keeps the invariant.
pub try_reserve-IsValid :
    (w : FixedWriter) (s : Segment)
    → IsValid w s
    → Headroom s
    → let (slot, w', s') = try_reserve w s in IsValid w' s'
try_reserve-IsValid w s v room = elim (Bool-cases w.pending) [
  | inl e ↦ rw (try_reserve-pending w s e) v
  | inr e ↦ elim (dec_lt s.write_pos (s.read_pos + s.data_capacity)) [
    | yes lt ↦ rw (try_reserve-ok w s v room e lt) (reserved_segment-IsValid w s v room e lt)
    | no ge ↦ rw (try_reserve-full w s v (omega arith)) v
  ]
]

-- `commit` keeps the invariant, and leaves nothing pending.
pub commit-IsValid :
    (w : FixedWriter) (s : Segment)
    → IsValid w s
    → let (w', s') = commit w s in IsValid w' s' × (w'.pending ≡ false)
unfolding commit
commit-IsValid w s v = ground (arith, add-IsMultiple s.fixed_item_size s.commit_pos)

-- `read_advance` over slots that are published keeps the invariant.
pub read_advance-IsValid :
    (w : FixedWriter) (s : Segment) (n : ℕ)
    → IsValid w s
    → s.read_pos + n * s.fixed_item_size ≤ s.commit_pos
    → IsValid w (read_advance n s)
unfolding read_advance
read_advance-IsValid w s n v h =
    ground (arith, add-mul-mod_self_right s.read_pos n s.fixed_item_size)
