-- ===== src/Varlen/Reserve.antt =====
-- `try_reserve` on all its branches.
use mathlib.Core.Path.{subst}
use native.Mathlib.Decide.{dec_lt}
use spscring.Base.{ℕ, ◌+◌, ◌≤◌, ◌<◌, ◌≡◌, ap, sym, true, false, Option, some, u32_mod, arith}
use spscring.View.{Segment, store_write_pos, store_commit_pos, wake_consumer}
use spscring.Varlen.Header.{MessageMeta}
use spscring.Varlen.Writer.{
  full, message_too_large, ReserveResult, refused, VarlenWriter, needed_size, Round, continue,
  reserve_round, reserve_loop, try_reserve, store_slot,
}
use spscring.Varlen.Align.{needed_size-lt}
use spscring.Varlen.Valid.{
  IsValid, Headroom, wrap_padding, padded, taken, granted, round-full, round-pad, round-take,
}
use spscring.Varlen.Padding.{padded-IsValid, head_index-padded, wrap_padding-bounds}

-- The writer with this reservation outstanding.
abbrev pub holding : ℕ → VarlenWriter → VarlenWriter
holding position w = record w { pending = true; last_position = position }

-- What a reservation of a slot of `needed` bytes comes to, by the room that there is: before the
-- end of the ring, or behind a padding slot.
pub data Outcome (needed payload_size : ℕ) (meta : MessageMeta) (w : VarlenWriter) (s : Segment)
    : Option (ReserveResult × VarlenWriter × Segment) → Type 0 where
  too_large :
      s.data_capacity < needed
      → Outcome needed payload_size meta w s (some (refused message_too_large, w, s))
  no_room :
      needed ≤ s.data_capacity
      → s.read_pos + s.data_capacity < s.write_pos + needed
      → Outcome needed payload_size meta w s (some (refused full, w, s))
  no_room_behind :
      s.write_pos + needed ≤ s.read_pos + s.data_capacity
      → wrap_padding s < needed
      → s.read_pos + s.data_capacity < s.write_pos + wrap_padding s + needed
      → Outcome needed payload_size meta w s (some (refused full, w, padded s))
  placed :
      s.write_pos + needed ≤ s.read_pos + s.data_capacity
      → needed ≤ wrap_padding s
      → Outcome needed payload_size meta w s
          (some (granted s, holding s.write_pos w, taken needed payload_size meta s))
  placed_behind :
      s.write_pos + wrap_padding s + needed ≤ s.read_pos + s.data_capacity
      → wrap_padding s < needed
      → Outcome needed payload_size meta w s (
          some (
            granted (padded s),
            holding (s.write_pos + wrap_padding s) w,
            taken needed payload_size meta (padded s),
          ))

module _ (payload_size : ℕ) (meta : MessageMeta) (w : VarlenWriter) (s : Segment) (v : IsValid w s)
    (room : Headroom s) (e : w.pending ≡ false) where
  abbrev needed : ℕ
  needed = needed_size payload_size s.data_alignment

  -- After the padding the second round ends the loop.
  second-Outcome :
      needed ≤ s.data_capacity
      → needed < u32_mod
      → s.write_pos + needed ≤ s.read_pos + s.data_capacity
      → wrap_padding s < needed
      → Outcome needed payload_size meta w s (
          reserve_loop 1 needed payload_size meta
            (continue (s.write_pos + wrap_padding s) w (padded s)))
  unfolding reserve_loop store_write_pos store_commit_pos wake_consumer store_slot
  second-Outcome fits word under short =
      let v' = padded-IsValid w s v e (omega arith) in
      let start = head_index-padded w s v in
      let (low, whole) = wrap_padding-bounds w s v in
      elim (dec_lt (s.read_pos + s.data_capacity) (s.write_pos + wrap_padding s + needed)) [
        | yes over ↦
            subst (Outcome needed payload_size meta w s)
              (sym (
                ap (reserve_loop 0 needed payload_size meta) (
                  round-full needed payload_size meta w (padded s) v' (omega arith) fits word
                    over)))
              (no_room_behind under short over)
        | no enough ↦
            subst (Outcome needed payload_size meta w s)
              (sym (
                ap (reserve_loop 0 needed payload_size meta) (
                  round-take needed payload_size meta w (padded s) v' (omega arith) fits word
                    (omega arith) (omega (arith, start)))))
              (placed_behind (omega arith) short)
      ]

  by_round :
      (r : Round)
      → reserve_round needed payload_size meta s.write_pos w s ≡ r
      → Outcome needed payload_size meta w s (reserve_loop 1 needed payload_size meta r)
      → Outcome needed payload_size meta w s
          (reserve_loop 2 needed payload_size meta (continue s.write_pos w s))
  unfolding reserve_loop
  by_round r e o =
      subst (Outcome needed payload_size meta w s)
        (sym (ap (reserve_loop 1 needed payload_size meta) e)) o

  loop-Outcome :
      needed ≤ s.data_capacity
      → needed < u32_mod
      → Outcome needed payload_size meta w s
          (reserve_loop 2 needed payload_size meta (continue s.write_pos w s))
  unfolding reserve_loop
  loop-Outcome fits word = elim (dec_lt (s.read_pos + s.data_capacity) (s.write_pos + needed)) [
    | yes over ↦
        by_round _ (round-full needed payload_size meta w s v (omega arith) fits word over)
          (no_room fits over)
    | no enough ↦ elim (dec_lt (wrap_padding s) needed) [
      | yes short ↦
          by_round _
            (round-pad needed payload_size meta w s v (omega arith) fits word (omega arith) short)
            (second-Outcome fits word (omega arith) short)
      | no long ↦
          by_round _
            (round-take needed payload_size meta w s v (omega arith) fits word (omega arith)
              (omega arith))
            (placed (omega arith) (omega arith))
    ]
  ]

  -- On a valid ring with nothing reserved `try_reserve` returns, and by the room for the slot it
  -- refuses, refuses after it has moved past the end of the ring, or takes the slot, while the
  -- 64-bit positions last for three rounds.
  pub try_reserve-Outcome : Outcome needed payload_size meta w s (try_reserve payload_size meta w s)
  unfolding try_reserve
  try_reserve-Outcome = elim (dec_lt s.data_capacity needed) [
    | yes over ↦ subst (Outcome needed payload_size meta w s) (ground arith) (too_large over)
    | no fits ↦
        subst (Outcome needed payload_size meta w s) (ground arith)
          (loop-Outcome (omega arith) (needed_size-lt payload_size s.data_alignment v.alignment))
  ]
