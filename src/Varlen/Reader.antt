-- ===== src/Varlen/Reader.antt =====
-- varlen_reader.hpp. A handler is given the payload's bytes and the meta, and returns whether it
-- takes the message; it writes to neither.
use spscring.Base.{
  ℕ, zero, suc, ◌+◌, ◌-◌, ◌%◌, List, Bool, true, false, ◌||◌, Option, none, some, ltb, leb, ◌==◌,
  if◌then◌else◌, add64, sub64,
}
use spscring.Memory.{load}
use spscring.View.{Segment, store_read_pos, wake_producer}
use spscring.Varlen.Header.{
  MessageMeta, varlen_slot_header_size, load_slot_size, load_payload_size, load_meta,
}

pub record Message : Type 0 where
  pub payload : List ℕ
  pub meta : MessageMeta

-- What `read` returns, and the message that it has shown to the handler, if any.
pub record ReadResult : Type 0 where
  pub consumed : Bool
  pub shown : Option Message

abbrev pub nothing : ReadResult
nothing = record { consumed = false; shown = none }

pub data Round : Type 0 where
  return : ReadResult → Segment → Round
  continue : Segment → Round

-- read_pos.store(read_pos + slot->slot_size), the bump and the wake
unfoldable pub skip_slot : ℕ → ℕ → Segment → Segment
unfolding store_read_pos wake_producer
skip_slot read_pos slot_size s = wake_producer (store_read_pos (add64 read_pos slot_size) s)

unfoldable pub message_at : ℕ → Segment → Message
unfolding load load_payload_size load_meta
message_at read_index s = record {
  payload =
      load s.bytes (read_index + varlen_slot_header_size) (load_payload_size s.bytes read_index);
  meta = load_meta s.bytes read_index;
}

-- One round of the loop of `read`.
unfoldable pub read_round : (Message → Bool) → Segment → Round
unfolding skip_slot message_at load_slot_size load_payload_size
read_round handler s =
    let used = if ltb s.read_pos s.commit_pos then sub64 s.commit_pos s.read_pos else 0 in
    let read_index = s.read_pos % s.data_capacity in
    let slot_size = load_slot_size s.bytes read_index in
    let shown = message_at read_index s in
    if used == 0 || slot_size == 0
    then return nothing s
    else if ltb used slot_size
    then return nothing s
    else if load_payload_size s.bytes read_index == 0
    then continue (skip_slot s.read_pos slot_size s)
    else if handler shown
    then return (record { consumed = true; shown = some shown }) (skip_slot s.read_pos slot_size s)
    else return (record { consumed = false; shown = some shown }) s

-- The loop, on fuel; `none` means that the fuel ran out.
unfoldable pub read_loop : ℕ → (Message → Bool) → Round → Option (ReadResult × Segment)
unfolding read_round
read_loop fuel handler (return r s) = some (r, s)
read_loop zero handler (continue s) = none
read_loop (suc fuel) handler (continue s) = read_loop fuel handler (read_round handler s)

-- The fuel covers a padding slot of one byte at every position.
unfoldable pub read : (Message → Bool) → Segment → Option (ReadResult × Segment)
unfolding read_loop
read handler s = read_loop (s.commit_pos - s.read_pos + 1) handler (continue s)

unfoldable pub next_payload_size : Segment → ℕ
unfolding load_payload_size
next_payload_size s =
    if leb s.commit_pos s.read_pos
    then 0
    else load_payload_size s.bytes (s.read_pos % s.data_capacity)
