-- ===== src/Varlen/Reserved.antt =====
-- varlen_writer.hpp, try_reserve: the header of the slot that it takes, as commit and the reader
-- load it.
use spscring.Base.{ℕ, ◌+◌, ◌%◌, ◌<◌, ◌≡◌, ◌≢◌, refl, true, false, Option, some, u32_mod}
use spscring.View.{Segment, store_write_pos, store_commit_pos, wake_consumer}
use spscring.Varlen.Header.{MessageMeta, load_slot_size, load_payload_size, load_meta}
use spscring.Varlen.Writer.{
  ok, ReserveStatus, ReserveResult, refused, VarlenWriter, needed_size, try_reserve, store_slot,
}
use spscring.Varlen.Align.{needed_size-lt}
use spscring.Varlen.Layout.{header_roundtrip}
use spscring.Varlen.Send.{MetaFits}
use spscring.Varlen.Valid.{IsValid, Headroom, head_index, padded, taken, granted}
use spscring.Varlen.Reserve.{
  holding, Outcome, too_large, no_room, no_room_behind, placed, placed_behind, try_reserve-Outcome,
}

-- A reservation is refused, or the three fields of the header at its position read back as the slot
-- size and the arguments; the payload starts behind the header, and the position is the one that
-- commit asks for.
pub data Reserved (needed payload_size : ℕ) (meta : MessageMeta)
    : Option (ReserveResult × VarlenWriter × Segment) → Type 0 where
  not_reserved :
      {status : ReserveStatus} {w : VarlenWriter} {s : Segment}
      → status ≢ ok
      → w.pending ≡ false
      → Reserved needed payload_size meta (some (refused status, w, s))
  reserved :
      {r : ReserveResult} {w : VarlenWriter} {s : Segment}
      → r.status ≡ ok
      → load_slot_size s.bytes (r.position % s.data_capacity) ≡ needed
      → load_payload_size s.bytes (r.position % s.data_capacity) ≡ payload_size
      → load_meta s.bytes (r.position % s.data_capacity) ≡ meta
      → r.payload ≡ some (r.position % s.data_capacity + 32)
      → w.pending ≡ true
      → w.last_position ≡ r.position
      → Reserved needed payload_size meta (some (r, w, s))

module _ (needed payload_size : ℕ) (meta : MessageMeta) (small : needed < u32_mod)
    (fits : payload_size < u32_mod) (meta_fits : MetaFits meta) where
  taken-Reserved :
      (w : VarlenWriter) (s : Segment)
      → Reserved needed payload_size meta
          (some (granted s, holding s.write_pos w, taken needed payload_size meta s))
  unfolding store_write_pos store_slot
  taken-Reserved w s =
      let (size, payload, m) =
        header_roundtrip s.bytes (head_index s)
          (record { slot_size = needed; payload_size = payload_size; meta = meta })
          (record {
            slot_size = small;
            payload_size = fits;
            user_data = meta_fits.user_data;
            timestamp_ns = meta_fits.timestamp_ns;
            schema_id = meta_fits.schema_id;
            flags = meta_fits.flags;
          }) in
      reserved refl size payload m refl refl refl

  by_Outcome :
      {w : VarlenWriter} {s : Segment} {o : Option (ReserveResult × VarlenWriter × Segment)}
      → w.pending ≡ false
      → Outcome needed payload_size meta w s o
      → Reserved needed payload_size meta o
  unfolding wake_consumer store_commit_pos store_slot store_write_pos
  by_Outcome e (too_large _) = not_reserved (λ q. cc) e
  by_Outcome e (no_room _ _) = not_reserved (λ q. cc) e
  by_Outcome e (no_room_behind _ _ _) = not_reserved (λ q. cc) e
  by_Outcome {w} {s} e (placed _ _) = taken-Reserved w s
  by_Outcome {w} {s} e (placed_behind _ _) = taken-Reserved w (padded s)

-- On a valid ring with nothing reserved, while the 64-bit positions last for three rounds:
-- try_reserve refuses and leaves nothing pending, or the header at the position that it returns
-- reads back as the slot size, the payload size and the meta, the payload starts behind it, and
-- the reservation is the one that commit takes. The arguments fit their types.
pub try_reserve-Reserved :
    (payload_size : ℕ) (meta : MessageMeta) (w : VarlenWriter) (s : Segment)
    → IsValid w s
    → Headroom s
    → w.pending ≡ false
    → payload_size < u32_mod
    → MetaFits meta
    → Reserved
        (needed_size payload_size s.data_alignment)
        payload_size
        meta
        (try_reserve payload_size meta w s)
try_reserve-Reserved payload_size meta w s v room e fits meta_fits =
    by_Outcome (needed_size payload_size s.data_alignment) payload_size meta
      (needed_size-lt payload_size s.data_alignment v.alignment) fits meta_fits e
      (try_reserve-Outcome payload_size meta w s v room e)
