-- ===== src/Varlen/Deliver.antt =====
-- `write` against the list of messages in the ring.
use spscring.Base.{
  refl, ℕ, List, [], ◌∷◌, ◌++◌, ◌+◌, ◌≤◌, ◌<◌, ◌≡◌, length, Bool, true, false, Option, none, some,
  ltb, if◌then◌else◌, u32_mod, arith, sym, ◌%◌, u64_mod,
}
use mathlib.Core.Path.{subst}
use spscring.Memory.{Memory, load}
use spscring.View.{Segment, store_write_pos, store_commit_pos, wake_consumer}
use spscring.Varlen.Header.{MessageMeta}
use spscring.Varlen.Writer.{
  store_slot, ReserveResult, VarlenWriter, needed_size, copy_payload, finish_write,
  reserve_and_copy, write,
}
use spscring.Varlen.Reader.{Message}
use spscring.Varlen.Align.{needed_size-lt, needed_size-IsRounded}
use spscring.Varlen.Valid.{IsValid, Headroom, wrap_padding, padded, granted, taken}
use spscring.Varlen.Padding.{padded-IsValid, Chain-padded, head_index-padded}
use spscring.Varlen.Reserve.{
  Outcome, too_large, no_room, no_room_behind, placed, placed_behind, try_reserve-Outcome,
}
use spscring.Varlen.Send.{MetaFits, Holds, Holds-sent, sent-IsValid, finish_write-sent}

-- Where a slot of this size starts: a slot does not run over the end of the region.
abbrev pub slot_start : ℕ → Segment → ℕ
slot_start needed s =
    if ltb (wrap_padding s) needed then s.write_pos + wrap_padding s else s.write_pos

-- What `write` of the message x comes to on a ring that holds ms: with room for the slot it returns
-- true and the ring holds x as well, without it false and the ring holds ms. Either way the ring is
-- valid and nothing is reserved.
pub data Delivered (needed : ℕ) (s : Segment) (ms : List Message) (x : Message)
    : Option (Bool × VarlenWriter × Segment) → Type 0 where
  accepted :
      {w' : VarlenWriter} {s' : Segment}
      → slot_start needed s + needed ≤ s.read_pos + s.data_capacity
      → IsValid w' s'
      → w'.pending ≡ false
      → s'.write_pos < u64_mod
      → Holds s' (ms ++ x ∷ [])
      → Delivered needed s ms x (some (true, w', s'))
  rejected :
      {w' : VarlenWriter} {s' : Segment}
      → s.read_pos + s.data_capacity < slot_start needed s + needed
      → IsValid w' s'
      → w'.pending ≡ false
      → Holds s' ms
      → Delivered needed s ms x (some (false, w', s'))

-- `write` behind the reservation.
abbrev pub after_reservation :
    ℕ
    → Option Memory
    → Option (ReserveResult × VarlenWriter × Segment)
    → Option (Bool × VarlenWriter × Segment)
after_reservation size source r =
    elim (elim r as (λ _. Option (ReserveResult × VarlenWriter × Segment)) [
      | none ↦ none
      | some r ↦ some (copy_payload size source r)
    ]) [ none ↦ none | some r ↦ some (finish_write r) ]

module _ (source : Memory) (xs : List ℕ) (meta : MessageMeta) (w : VarlenWriter) (s : Segment)
    (ms : List Message) (v : IsValid w s) (room : Headroom s) (e : w.pending ≡ false)
    (nonempty : 0 < length xs) (size : length xs + 32 + s.data_alignment ≤ u32_mod)
    (given : load source 0 (length xs) ≡ xs) (meta_fits : MetaFits meta) (holds : Holds s ms) where
  abbrev needed : ℕ
  needed = needed_size (length xs) s.data_alignment

  abbrev message : Message
  message = record { payload = xs; meta = meta }

  -- The slot taken at the front of a valid ring.
  accept :
      (s' : Segment)
      → IsValid w s'
      → s'.data_alignment ≡ s.data_alignment
      → Holds s' ms
      → s'.write_pos + needed < u64_mod
      → s'.write_pos + needed ≤ s'.read_pos + s'.data_capacity
      → needed ≤ wrap_padding s'
      → slot_start needed s + needed ≤ s.read_pos + s.data_capacity
      → Delivered needed s ms message (
          some (
            finish_write (
              copy_payload (length xs) (some source) (
                granted s',
                record w { pending = true; last_position = s'.write_pos },
                taken needed (length xs) meta s',
              ))))
  unfolding store_write_pos store_slot store_commit_pos wake_consumer
  accept s' v' same holds' last below fit enough =
      let rounded = needed_size-IsRounded (length xs) s.data_alignment v.alignment size in
      let word = needed_size-lt (length xs) s.data_alignment v.alignment in
      let above : 32 + length xs ≤ needed = omega (arith, rounded.above) in
      let step : needed % s'.data_alignment ≡ 0 = rw same rounded.multiple in
      subst (λ r. Delivered needed s ms message (some r))
        (sym (
          finish_write-sent needed xs meta w s' v' e below fit above word step meta_fits source
            nonempty given last))
        (accepted enough (sent-IsValid needed xs meta w s' v' e below fit above word step meta_fits)
          refl last
          (Holds-sent needed xs meta w s' v' e below fit above word step meta_fits nonempty holds'))

  by_Outcome :
      {o : Option (ReserveResult × VarlenWriter × Segment)}
      → Outcome needed (length xs) meta w s o
      → Delivered needed s ms message (after_reservation (length xs) (some source) o)
  unfolding copy_payload finish_write store_slot store_write_pos store_commit_pos wake_consumer
  by_Outcome (too_large over) = rejected (ground arith) v e holds
  by_Outcome (no_room fits over) = rejected (ground arith) v e holds
  by_Outcome (no_room_behind under short over) =
      let word = needed_size-lt (length xs) s.data_alignment v.alignment in
      rejected (ground arith) (padded-IsValid w s v e (omega arith)) e
        (Chain-padded w s v e (omega arith) (omega arith) holds)
  by_Outcome (placed under long) = accept s v refl holds (omega arith) under long (ground arith)
  by_Outcome (placed_behind under short) =
      let word = needed_size-lt (length xs) s.data_alignment v.alignment in
      let start = head_index-padded w s v in
      accept (padded s) (padded-IsValid w s v e (omega arith)) refl
        (Chain-padded w s v e (omega arith) (omega arith) holds) (omega arith) (omega arith)
        (omega (arith, start)) (ground arith)

  -- On a valid ring that holds ms with nothing reserved, `write` of a message with a payload returns:
  -- true, with the message behind ms, if a slot for it fits between the end of the ring's messages
  -- and its free room, and false, with ms as they were, if not.
  pub write-Delivered : Delivered needed s ms message (write (length xs) (some source) meta w s)
  unfolding write reserve_and_copy
  write-Delivered = by_Outcome (try_reserve-Outcome (length xs) meta w s v room e)
