-- ===== src/Varlen/Valid.antt =====
-- The invariant of a ring of messages, and the rounds of the reservation loop.

use native.Mathlib.Nat.{mod-lt}
use spscring.Base.{ℕ, ◌+◌, ◌-◌, ◌%◌, ◌≤◌, ◌<◌, ◌≡◌, true, false, some, u32_mod, u64_mod, arith}
use spscring.Control.Geometry.{IsAlignment}
use spscring.View.{Segment, store_write_pos, store_commit_pos, wake_consumer}
use spscring.Varlen.Header.{MessageMeta, no_meta, load_slot_size}
use spscring.Varlen.Writer.{
  ok, full, ReserveResult, refused, VarlenWriter, store_slot, return, continue, reserve_round,
}

-- The geometry: slots of eight bytes and more, so that the two sizes of a header lie within them.
pub record IsVarlenRing (s : Segment) : Type 0 where
  pub alignment : IsAlignment s.data_alignment
  pub word : 8 ≤ s.data_alignment
  pub room : 0 < s.data_capacity
  pub aligned : s.data_capacity % s.data_alignment ≡ 0

-- The fronts, in order and within a round, all at multiples of the alignment. A reservation is the
-- one slot between `commit_pos` and `write_pos`.
pub record IsValid (w : VarlenWriter) (s : Segment) : Type 0 where
  pub ring : IsVarlenRing s
  pub open ring use *
  pub read_le : s.read_pos ≤ s.commit_pos
  pub commit_le : s.commit_pos ≤ s.write_pos
  pub write_le : s.write_pos ≤ s.read_pos + s.data_capacity
  pub read_slot : s.read_pos % s.data_alignment ≡ 0
  pub commit_slot : s.commit_pos % s.data_alignment ≡ 0
  pub write_slot : s.write_pos % s.data_alignment ≡ 0
  pub free : w.pending ≡ false → s.write_pos ≡ s.commit_pos
  pub reserved :
      w.pending ≡ true
      → (w.last_position ≡ s.commit_pos)
        × (s.commit_pos + load_slot_size s.bytes (s.commit_pos % s.data_capacity) ≡ s.write_pos)

-- Below this neither the positions nor the sums on them have used up 64 bits: in one round, and
-- in a call, which may go one round further.
abbrev pub RoundRoom : Segment → Type 0
RoundRoom s = s.write_pos + s.data_capacity + s.data_capacity < u64_mod

abbrev pub Headroom : Segment → Type 0
Headroom s = s.write_pos + s.data_capacity + s.data_capacity + s.data_capacity < u64_mod

abbrev pub head_index : Segment → ℕ
head_index s = s.write_pos % s.data_capacity

abbrev pub wrap_padding : Segment → ℕ
wrap_padding s = s.data_capacity - head_index s

-- The segment after the padding slot, and after the slot for a message.
abbrev pub padded : Segment → Segment
padded s =
    let new_head = s.write_pos + wrap_padding s in
    wake_consumer (
      store_commit_pos new_head (
        store_slot (head_index s)
          (record { slot_size = wrap_padding s; payload_size = 0; meta = no_meta })
          (store_write_pos new_head s)))

abbrev pub taken : ℕ → ℕ → MessageMeta → Segment → Segment
taken needed payload_size meta s =
    store_slot (head_index s)
      (record { slot_size = needed; payload_size = payload_size; meta = meta })
      (store_write_pos (s.write_pos + needed) s)

abbrev pub granted : Segment → ReserveResult
granted s = record { status = ok; payload = some (head_index s + 32); position = s.write_pos }

module _ (needed payload_size : ℕ) (meta : MessageMeta) (w : VarlenWriter) (s : Segment)
    (v : IsValid w s) (room : RoundRoom s) (fits : needed ≤ s.data_capacity)
    (word : needed < u32_mod) where
  index_lt : head_index s < s.data_capacity
  index_lt = mod-lt s.write_pos v.room

  pub round-full :
      s.read_pos + s.data_capacity < s.write_pos + needed
      → reserve_round needed payload_size meta s.write_pos w s ≡ return (refused full) w s
  unfolding reserve_round
  round-full over = ground (arith, index_lt)

  pub round-pad :
      s.write_pos + needed ≤ s.read_pos + s.data_capacity
      → wrap_padding s < needed
      → reserve_round needed payload_size meta s.write_pos w s
        ≡ continue (s.write_pos + wrap_padding s) w (padded s)
  unfolding reserve_round
  round-pad under short = ground (arith, index_lt)

  pub round-take :
      s.write_pos + needed ≤ s.read_pos + s.data_capacity
      → needed ≤ wrap_padding s
      → reserve_round needed payload_size meta s.write_pos w s
        ≡ return
            (granted s)
            (record w { pending = true; last_position = s.write_pos })
            (taken needed payload_size meta s)
  unfolding reserve_round
  round-take under long = ground (arith, index_lt)
