-- ===== src/Varlen/Empty.antt =====
-- `write` of an empty payload: the slot that it takes looks like wrap padding to a reader.
use mathlib.Core.Path.{subst}
use spscring.Base.{
  refl, ℕ, List, [], ◌+◌, ◌≤◌, ◌<◌, ◌≡◌, Bool, true, false, Option, none, some, u32_mod, arith, sym,
  ap, ◌%◌, u64_mod, append-nil,
}
use spscring.Memory.{Memory, store}
use spscring.View.{Segment, store_write_pos, store_commit_pos, wake_consumer}
use spscring.Varlen.Header.{MessageMeta}
use spscring.Varlen.Writer.{
  store_slot, ReserveStatus, full, message_too_large, refused, ReserveResult, VarlenWriter,
  needed_size, copy_payload, finish_write, reserve_and_copy, write,
}
use spscring.Varlen.Reader.{Message}
use spscring.Varlen.Chain.{Chain, Chain-append, Chain-kept, pad, done}
use spscring.Varlen.Align.{needed_size-lt, needed_size-IsRounded, IsAlignment-bounds}
use spscring.Varlen.Valid.{IsValid, Headroom, wrap_padding, padded, granted, taken}
use spscring.Varlen.Padding.{padded-IsValid, Chain-padded, head_index-padded}
use spscring.Varlen.Reserve.{
  Outcome, too_large, no_room, no_room_behind, placed, placed_behind, try_reserve-Outcome,
}
use spscring.Varlen.Send.{
  MetaFits, Holds, sent, sent-IsValid, header_back, in_region, untouched, after_payload,
  commit-filled, released, outstanding,
}
use spscring.Varlen.Deliver.{slot_start, after_reservation}

-- What `write` of an empty payload comes to on a ring that holds ms: with room for a slot it returns
-- true, without it false, and either way the ring holds ms.
pub data Swallowed (needed : ℕ) (s : Segment) (ms : List Message)
    : Option (Bool × VarlenWriter × Segment) → Type 0 where
  accepted :
      {w' : VarlenWriter} {s' : Segment}
      → slot_start needed s + needed ≤ s.read_pos + s.data_capacity
      → IsValid w' s'
      → w'.pending ≡ false
      → Holds s' ms
      → Swallowed needed s ms (some (true, w', s'))
  rejected :
      {w' : VarlenWriter} {s' : Segment}
      → s.read_pos + s.data_capacity < slot_start needed s + needed
      → IsValid w' s'
      → w'.pending ≡ false
      → Holds s' ms
      → Swallowed needed s ms (some (false, w', s'))

module _ (needed : ℕ) (meta : MessageMeta) (w : VarlenWriter) (s : Segment) (v : IsValid w s)
    (e : w.pending ≡ false) (below : s.write_pos + needed ≤ s.read_pos + s.data_capacity)
    (fit : needed ≤ wrap_padding s) (holds : 32 ≤ needed) (small : needed < u32_mod)
    (step : needed % s.data_alignment ≡ 0) (meta_fits : MetaFits meta) where
  -- The slot is padding to the ring's list of messages.
  Holds-swallowed : {ms : List Message} → Holds s ms → Holds (sent needed [] meta s) ms
  unfolding store_write_pos store_commit_pos wake_consumer store_slot
  Holds-swallowed {ms} c =
      let end = s.write_pos + needed in
      let after = after_payload needed [] meta w s v e below fit holds small step meta_fits in
      let (size, payload, m) =
        header_back needed [] meta w s v e below fit holds small step meta_fits in
      let within = in_region needed [] meta w s v e below fit holds small step meta_fits in
      let kept =
        Chain-kept s.bytes after s.data_capacity s.write_pos needed (omega arith) within
          (λ i lt out. untouched needed [] meta w s v e below fit holds small step meta_fits i out)
          c (omega arith) below in
      subst (Chain after s.data_capacity s.data_alignment end s.read_pos) (append-nil ms) (
        Chain-append
          (subst (λ p. Chain after s.data_capacity s.data_alignment p s.read_pos ms)
            (sym (v.free e)) kept)
          (pad needed step (omega arith) within size payload (done refl)))

  finish_write-swallowed :
      (source : Option Memory)
      → s.write_pos + needed < u64_mod
      → finish_write (
          copy_payload 0 source (
            granted s,
            outstanding needed [] meta w s v e below fit holds small step meta_fits,
            taken needed 0 meta s,
          ))
        ≡ (
          true,
          released needed [] meta w s v e below fit holds small step meta_fits,
          sent needed [] meta s,
        )
  unfolding finish_write copy_payload store
  finish_write-swallowed none room =
      ap (λ r. (true, r.0, r.1))
        (commit-filled needed [] meta w s v e below fit holds small step meta_fits room)
  finish_write-swallowed (some m) room =
      ap (λ r. (true, r.0, r.1))
        (commit-filled needed [] meta w s v e below fit holds small step meta_fits room)

data IsRefusal : ReserveStatus → Type 0 where
  for_room : IsRefusal full
  for_size : IsRefusal message_too_large

module _ (source : Option Memory) (meta : MessageMeta) (w : VarlenWriter) (s : Segment)
    (ms : List Message) (v : IsValid w s) (room : Headroom s) (e : w.pending ≡ false)
    (meta_fits : MetaFits meta) (holds : Holds s ms) where
  abbrev slot : ℕ
  slot = needed_size 0 s.data_alignment

  -- The slot taken at the front of a valid ring.
  accept :
      (s' : Segment)
      → IsValid w s'
      → s'.data_alignment ≡ s.data_alignment
      → Holds s' ms
      → s'.write_pos + slot < u64_mod
      → s'.write_pos + slot ≤ s'.read_pos + s'.data_capacity
      → slot ≤ wrap_padding s'
      → slot_start slot s + slot ≤ s.read_pos + s.data_capacity
      → Swallowed slot s ms (
          some (
            finish_write (
              copy_payload 0 source (
                granted s',
                record w { pending = true; last_position = s'.write_pos },
                taken slot 0 meta s',
              ))))
  unfolding store_write_pos store_slot store_commit_pos wake_consumer
  accept s' v' same holds' last below fit enough =
      let small : 0 + 32 + s.data_alignment ≤ u32_mod =
        omega (arith, IsAlignment-bounds s.data_alignment v.alignment) in
      let rounded = needed_size-IsRounded 0 s.data_alignment v.alignment small in
      let word = needed_size-lt 0 s.data_alignment v.alignment in
      let above : 32 ≤ slot = omega (arith, rounded.above) in
      let step : slot % s'.data_alignment ≡ 0 = rw same rounded.multiple in
      subst (λ r. Swallowed slot s ms (some r))
        (sym (
          finish_write-swallowed slot meta w s' v' e below fit above word step meta_fits source
            last))
        (accepted enough (sent-IsValid slot [] meta w s' v' e below fit above word step meta_fits)
          refl (Holds-swallowed slot meta w s' v' e below fit above word step meta_fits holds'))

  -- A refusal copies nothing and reserves nothing.
  reject :
      (from : Option Memory) (status : ReserveStatus) (s' : Segment)
      → IsRefusal status
      → s.read_pos + s.data_capacity < slot_start slot s + slot
      → IsValid w s'
      → Holds s' ms
      → Swallowed slot s ms (some (finish_write (copy_payload 0 from (refused status, w, s'))))
  unfolding copy_payload finish_write
  reject none status s' for_room over v' holds' = rejected over v' e holds'
  reject none status s' for_size over v' holds' = rejected over v' e holds'
  reject (some m) status s' for_room over v' holds' = rejected over v' e holds'
  reject (some m) status s' for_size over v' holds' = rejected over v' e holds'

  by_Outcome :
      {o : Option (ReserveResult × VarlenWriter × Segment)}
      → Outcome slot 0 meta w s o
      → Swallowed slot s ms (after_reservation 0 source o)
  unfolding copy_payload finish_write store_slot store_write_pos store_commit_pos wake_consumer
  by_Outcome (too_large over) = reject source message_too_large s for_size (ground arith) v holds
  by_Outcome (no_room fits over) = reject source full s for_room (ground arith) v holds
  by_Outcome (no_room_behind under short over) =
      let word = needed_size-lt 0 s.data_alignment v.alignment in
      reject source full (padded s) for_room (ground arith) (padded-IsValid w s v e (omega arith))
        (Chain-padded w s v e (omega arith) (omega arith) holds)
  by_Outcome (placed under long) = accept s v refl holds (omega arith) under long (ground arith)
  by_Outcome (placed_behind under short) =
      let word = needed_size-lt 0 s.data_alignment v.alignment in
      let start = head_index-padded w s v in
      accept (padded s) (padded-IsValid w s v e (omega arith)) refl
        (Chain-padded w s v e (omega arith) (omega arith) holds) (omega arith) (omega arith)
        (omega (arith, start)) (ground arith)

  -- On a valid ring that holds ms with nothing reserved, `write` of an empty payload returns true
  -- where a slot for its header is free, but leaves the ring with the messages ms: the slot counts as
  -- padding. It returns false where none is free.
  pub write-Swallowed : Swallowed slot s ms (write 0 source meta w s)
  unfolding write reserve_and_copy
  write-Swallowed = by_Outcome (try_reserve-Outcome 0 meta w s v room e)
