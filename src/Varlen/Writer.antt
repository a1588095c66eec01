-- ===== src/Varlen/Writer.antt =====
-- varlen_writer.hpp and reserve_result.hpp, and the pause counter of atomic_backoff.hpp.
use spscring.Base.{
  ℕ, zero, suc, ◌+◌, ◌%◌, Bool, true, false, not, ◌||◌, Option, none, some, ltb, ◌==◌,
  if◌then◌else◌, add32, add64, sub64, u32,
}
use spscring.Memory.{Memory, load, store}
use spscring.View.{Segment, store_write_pos, store_commit_pos, wake_consumer}
use spscring.Varlen.Header.{
  MessageMeta, SlotHeader, varlen_slot_header_size, no_meta, store_header, load_slot_size,
  align_up_u32,
}

pub data ReserveStatus : Type 0 where
  ok : ReserveStatus
  full : ReserveStatus
  timeout : ReserveStatus
  message_too_large : ReserveStatus
  pending_commit : ReserveStatus

pub record ReserveResult : Type 0 where
  pub status : ReserveStatus
  pub payload : Option ℕ
  pub position : ℕ

abbrev pub refused : ReserveStatus → ReserveResult
refused status = record { status = status; payload = none; position = 0 }

-- The fields of a `varlen_writer`; of its `backoff_` the count of pauses so far.
pub record VarlenWriter : Type 0 where
  pub pause_count : ℕ
  pub pending : Bool
  pub last_position : ℕ

abbrev pub varlen_writer : VarlenWriter
varlen_writer = record { pause_count = 0; pending = false; last_position = 0 }

-- backoff_.pause(): spinning or yielding leaves only the count.
unfoldable pub pause : VarlenWriter → VarlenWriter
pause w = record w { pause_count = add32 w.pause_count 1 }

-- write_pos.compare_exchange_strong(head, new_head): the result, `head` afterwards, the segment.
unfoldable pub exchange_write_pos : ℕ → ℕ → Segment → Bool × ℕ × Segment
unfolding store_write_pos
exchange_write_pos head new_head s =
    if s.write_pos == head
    then (true, head, store_write_pos new_head s)
    else (false, s.write_pos, s)

unfoldable pub store_slot : ℕ → SlotHeader → Segment → Segment
unfolding store_header
store_slot at h s = record s { bytes = store_header s.bytes at h }

-- The size of the slot for a payload.
unfoldable pub needed_size : ℕ → ℕ → ℕ
needed_size payload_size alignment =
    align_up_u32 (add32 varlen_slot_header_size payload_size) alignment

-- What one round of the loop of `try_reserve` does: it returns, or goes round with a new `head`.
pub data Round : Type 0 where
  return : ReserveResult → VarlenWriter → Segment → Round
  continue : ℕ → VarlenWriter → Segment → Round

-- The round that finds too little room before the end of the ring.
unfoldable pub pad_round : ℕ → ℕ → ℕ → VarlenWriter → Segment → Round
unfolding exchange_write_pos store_slot store_commit_pos wake_consumer pause
pad_round head head_index wrap_padding w s =
    let new_head = add64 head wrap_padding in
    let (won, seen, s') = exchange_write_pos head new_head s in
    let dummy : SlotHeader = record {
      slot_size = u32 wrap_padding;
      payload_size = 0;
      meta = no_meta;
    } in
    if won
    then continue new_head w
        (wake_consumer (store_commit_pos new_head (store_slot head_index dummy s')))
    else continue s'.write_pos (pause w) s'

-- The round that takes the slot.
unfoldable pub take_round : ℕ → ℕ → ℕ → ℕ → MessageMeta → VarlenWriter → Segment → Round
unfolding exchange_write_pos store_slot pause
take_round needed payload_size head head_index meta w s =
    let (won, seen, s') = exchange_write_pos head (add64 head needed) s in
    let header : SlotHeader = record {
      slot_size = needed;
      payload_size = payload_size;
      meta = meta;
    } in
    if won
    then return
        (record {
          status = ok;
          payload = some (head_index + varlen_slot_header_size);
          position = head;
        })
        (record w { pending = true; last_position = head }) (store_slot head_index header s')
    else continue seen (pause w) s'

unfoldable pub reserve_round : ℕ → ℕ → MessageMeta → ℕ → VarlenWriter → Segment → Round
unfolding pad_round take_round
reserve_round needed payload_size meta head w s =
    let used = sub64 head s.read_pos in
    let head_index = head % s.data_capacity in
    let wrap_padding = sub64 s.data_capacity head_index in
    if ltb s.data_capacity (add64 used needed)
    then return (refused full) w s
    else if ltb wrap_padding needed
    then pad_round head head_index wrap_padding w s
    else take_round needed payload_size head head_index meta w s

-- The loop, on fuel; `none` means that the fuel ran out.
unfoldable pub reserve_loop :
    ℕ → ℕ → ℕ → MessageMeta → Round → Option (ReserveResult × VarlenWriter × Segment)
reserve_loop fuel needed payload_size meta (return r w s) = some (r, w, s)
reserve_loop zero needed payload_size meta (continue head w s) = none
reserve_loop (suc fuel) needed payload_size meta (continue head w s) =
    reserve_loop fuel needed payload_size meta (reserve_round needed payload_size meta head w s)

unfoldable pub try_reserve :
    ℕ → MessageMeta → VarlenWriter → Segment → Option (ReserveResult × VarlenWriter × Segment)
try_reserve payload_size meta w s =
    let needed = needed_size payload_size s.data_alignment in
    if w.pending
    then some (refused pending_commit, w, s)
    else if ltb s.data_capacity needed
    then some (refused message_too_large, w, s)
    else reserve_loop 2 needed payload_size meta (continue s.write_pos w s)

-- std::memcpy(result.payload, data, payload_size), where `data` may be null.
unfoldable pub copy_payload :
    ℕ
    → Option Memory
    → ReserveResult × VarlenWriter × Segment
    → ReserveResult × VarlenWriter × Segment
unfolding load store
copy_payload payload_size none (r, w, s) = (r, w, s)
copy_payload payload_size (some source) (r, w, s) = elim r.status [
  | ok ↦ elim r.payload [
    | some at ↦
        if ltb 0 payload_size
        then (r, w, record s { bytes = store s.bytes at (load source 0 payload_size) })
        else (r, w, s)
    | none ↦ (r, w, s)
  ]
  | _ ↦ (r, w, s)
]

unfoldable pub reserve_and_copy :
    ℕ
    → Option Memory
    → MessageMeta
    → VarlenWriter
    → Segment
    → Option (ReserveResult × VarlenWriter × Segment)
unfolding try_reserve copy_payload
reserve_and_copy payload_size source meta w s = elim (try_reserve payload_size meta w s) [
  | none ↦ none
  | some r ↦ some (copy_payload payload_size source r)
]

unfoldable pub commit : ℕ → VarlenWriter → Segment → VarlenWriter × Segment
unfolding load_slot_size store_commit_pos wake_consumer
commit position w s =
    if not w.pending || not (position == w.last_position)
    then (w, s)
    else (let slot_size = load_slot_size s.bytes (position % s.data_capacity) in
        (
          record w { pending = false },
          wake_consumer (store_commit_pos (add64 position slot_size) s),
        ))

-- `write` once the reservation has been made.
unfoldable pub finish_write : ReserveResult × VarlenWriter × Segment → Bool × VarlenWriter × Segment
unfolding commit
finish_write (r, w, s) = elim r.status [
  | ok ↦ let (w', s') = commit r.position w s in (true, w', s')
  | _ ↦ (false, w, s)
]

unfoldable pub write :
    ℕ
    → Option Memory
    → MessageMeta
    → VarlenWriter
    → Segment
    → Option (Bool × VarlenWriter × Segment)
unfolding reserve_and_copy finish_write
write payload_size source meta w s = elim (reserve_and_copy payload_size source meta w s) [
  | none ↦ none
  | some r ↦ some (finish_write r)
]
