-- ===== src/Varlen/Header.antt =====
-- The slot header in memory (varlen_header.hpp, message_meta.hpp). A field of w bytes is stored
-- with its low byte first, as on x86-64 and ARM64.
use spscring.Base.{
  ℕ, zero, suc, ◌+◌, ◌*◌, ◌/◌, ◌%◌, Bool, ◌&&◌, List, [], ◌∷◌, ◌++◌, add32, sub32, not32, bit_and,
  ◌==◌, if◌then◌else◌,
}
use spscring.Memory.{Memory, load, store}
use spscring.Control.{ControlBlock, varlen, layout_code, validate_control_block}

pub record MessageMeta : Type 0 where
  pub user_data : ℕ
  pub timestamp_ns : ℕ
  pub schema_id : ℕ
  pub flags : ℕ

pub record SlotHeader : Type 0 where
  pub slot_size : ℕ
  pub payload_size : ℕ
  pub meta : MessageMeta

-- sizeof(varlen_slot_header): two 32-bit fields and the 24 bytes of a message_meta.
abbrev pub varlen_slot_header_size : ℕ
varlen_slot_header_size = 32

abbrev pub no_meta : MessageMeta
no_meta = record { user_data = 0; timestamp_ns = 0; schema_id = 0; flags = 0 }

-- The w bytes of a number, and back.
unfoldable pub to_bytes : ℕ → ℕ → List ℕ
to_bytes zero n = []
to_bytes (suc w) n = n % 256 ∷ to_bytes w (n / 256)

unfoldable pub from_bytes : List ℕ → ℕ
from_bytes [] = 0
from_bytes (b ∷ bs) = b + 256 * from_bytes bs

unfoldable pub meta_bytes : MessageMeta → List ℕ
unfolding to_bytes
meta_bytes m =
    to_bytes 8 m.user_data
    ++ to_bytes 8 m.timestamp_ns
    ++ to_bytes 4 m.schema_id
    ++ to_bytes 4 m.flags

unfoldable pub header_bytes : SlotHeader → List ℕ
unfolding meta_bytes
header_bytes h = to_bytes 4 h.slot_size ++ to_bytes 4 h.payload_size ++ meta_bytes h.meta

-- *slot = varlen_slot_header{...}, and the loads through a slot pointer
unfoldable pub store_header : Memory → ℕ → SlotHeader → Memory
unfolding store header_bytes
store_header m at h = store m at (header_bytes h)

unfoldable pub load_slot_size : Memory → ℕ → ℕ
unfolding load from_bytes
load_slot_size m at = from_bytes (load m at 4)

unfoldable pub load_payload_size : Memory → ℕ → ℕ
unfolding load from_bytes
load_payload_size m at = from_bytes (load m (at + 4) 4)

unfoldable pub load_meta : Memory → ℕ → MessageMeta
unfolding load from_bytes
load_meta m at = record {
  user_data = from_bytes (load m (at + 8) 8);
  timestamp_ns = from_bytes (load m (at + 16) 8);
  schema_id = from_bytes (load m (at + 24) 4);
  flags = from_bytes (load m (at + 28) 4);
}

unfoldable pub align_up_u32 : ℕ → ℕ → ℕ
align_up_u32 value alignment = bit_and (sub32 (add32 value alignment) 1) (not32 (sub32 alignment 1))

-- The result, and the header with its alignment normalized.
unfoldable pub validate_varlen_control_block : ControlBlock → Bool × ControlBlock
unfolding validate_control_block
validate_varlen_control_block header =
    let header' =
      if header.data_alignment == 0 then record header { data_alignment = 8 } else header in
    (validate_control_block header' && header'.layout_type == layout_code varlen, header')
