-- ===== src/Varlen/Layout.antt =====
-- A header is read back as it was stored.
use mathlib.Core.Path.{sym}
use native.Mathlib.Nat.{pow-suc}
use spscring.Base.{
  ℕ, zero, suc, ◌+◌, ◌*◌, ◌/◌, ◌^◌, ◌<◌, ◌≡◌, refl, ap, ◌∙◌, List, [], ◌++◌, length, u32_mod,
  u64_mod, arith,
}
use spscring.Memory.{Memory, load, store, load-store_part}
use spscring.Varlen.Header.{
  SlotHeader, to_bytes, from_bytes, meta_bytes, header_bytes, store_header, load_slot_size,
  load_payload_size, load_meta,
}

-- Every field fits its type.
pub record Fits (h : SlotHeader) : Type 0 where
  pub slot_size : h.slot_size < u32_mod
  pub payload_size : h.payload_size < u32_mod
  pub user_data : h.meta.user_data < u64_mod
  pub timestamp_ns : h.meta.timestamp_ns < u64_mod
  pub schema_id : h.meta.schema_id < u32_mod
  pub flags : h.meta.flags < u32_mod

pub length-to_bytes : (w n : ℕ) → length (to_bytes w n) ≡ w
unfolding to_bytes
length-to_bytes zero n = refl
length-to_bytes (suc w) n = ap suc (length-to_bytes w (n / 256))

pub from_bytes-to_bytes : (w n : ℕ) → n < 256 ^ w → from_bytes (to_bytes w n) ≡ n
unfolding to_bytes from_bytes
from_bytes-to_bytes zero n h = omega arith
from_bytes-to_bytes (suc w) n h =
    let split : 256 ^ suc w ≡ 256 ^ w * 256 = pow-suc 256 w in
    omega (arith, from_bytes-to_bytes w (n / 256) (omega arith))

-- A field of w bytes behind `before`.
field :
    (m : Memory) (at w n : ℕ) (bs before after : List ℕ) (from : ℕ)
    → bs ≡ before ++ (to_bytes w n ++ after)
    → from ≡ at + length before
    → n < 256 ^ w
    → from_bytes (load (store m at bs) from w) ≡ n
field m at w n bs before after from e place fits = rw e (
    ap from_bytes (
      ap (load (store m at (before ++ (to_bytes w n ++ after))) from) (sym (length-to_bytes w n))
      ∙ load-store_part m at before (to_bytes w n) after from place)
    ∙ from_bytes-to_bytes w n fits)

module _ (m : Memory) (at : ℕ) (h : SlotHeader) (fits : Fits h) where
  open h use {slot_size, payload_size}
  open h.meta use {user_data, timestamp_ns, schema_id, flags}

  abbrev stored : Memory
  stored = store_header m at h

  abbrev sizes : List ℕ
  sizes = to_bytes 4 slot_size ++ to_bytes 4 payload_size

  load_meta-store_header : load_meta stored at ≡ h.meta
  unfolding store_header load_meta
  load_meta-store_header = λ i. record {
    user_data =
        field m at 8 user_data (header_bytes h) sizes
          (to_bytes 8 timestamp_ns ++ to_bytes 4 schema_id ++ to_bytes 4 flags) (at + 8) refl refl
          fits.user_data i;
    timestamp_ns =
        field m at 8 timestamp_ns (header_bytes h) (sizes ++ to_bytes 8 user_data)
          (to_bytes 4 schema_id ++ to_bytes 4 flags) (at + 16) refl refl fits.timestamp_ns i;
    schema_id =
        field m at 4 schema_id (header_bytes h)
          (sizes ++ to_bytes 8 user_data ++ to_bytes 8 timestamp_ns) (to_bytes 4 flags) (at + 24)
          refl refl fits.schema_id i;
    flags =
        field m at 4 flags (header_bytes h)
          (sizes ++ to_bytes 8 user_data ++ to_bytes 8 timestamp_ns ++ to_bytes 4 schema_id) []
          (at + 28) refl refl fits.flags i;
  }

  -- A stored header is read back field by field.
  pub header_roundtrip :
      (load_slot_size stored at ≡ slot_size)
      × (load_payload_size stored at ≡ payload_size)
      × (load_meta stored at ≡ h.meta)
  unfolding store_header load_slot_size load_payload_size
  header_roundtrip = (
    field m at 4 slot_size (header_bytes h) [] (to_bytes 4 payload_size ++ meta_bytes h.meta) at
        refl (omega arith) fits.slot_size,
    field m at 4 payload_size (header_bytes h) (to_bytes 4 slot_size) (meta_bytes h.meta) (at + 4)
        refl refl fits.payload_size,
    load_meta-store_header,
  )

pub length-header_bytes : (h : SlotHeader) → length (header_bytes h) ≡ 32
unfolding header_bytes
length-header_bytes h = refl
