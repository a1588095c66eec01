-- ===== src/BasicUsage/Printed.antt =====
-- What the demos print is what has been sent.

use spscring.Base.{ℕ, ◌≤◌, ◌<◌, ◌≡◌, refl, Bool, List, [], ◌∷◌, ◌++◌, length, Option, some, arith}
use spscring.Memory.{Memory, load, load-store}
use spscring.Control.{init_control_block, is_valid_data_alignment}
use spscring.View.{Segment}
use spscring.Fixed.{
  write, ring_is_full, reserve_from, try_reserve, commit, fill, finish_write, try_read, read_from,
}
use spscring.Varlen.Chain.{done}
use spscring.Varlen.Reader.{Message}
use spscring.Varlen.Writer.{VarlenWriter, varlen_writer}
use spscring.Varlen.Align.{needed_size-IsRounded}
use spscring.Varlen.Valid.{IsValid}
use spscring.Varlen.Deliver.{Delivered, accepted, rejected, write-Delivered}
use spscring.Varlen.Copy.{CopyOut, Copied, no_message, copied, too_small, read_into-Copied}
use spscring.BasicUsage.{
  received, fixed_ring_demo, varlen_ring, demo_meta, printed, read_back, varlen_ring_demo,
  varlen_buffer_size,
}

-- fixed_ring_demo prints the 64 bytes that it has sent, whatever the arena held before.
fixed_ring_demo-received :
    (bytes : Memory) (sent : List ℕ) → length sent ≡ 64 → fixed_ring_demo bytes sent ≡ some sent
unfolding fixed_ring_demo init_control_block is_valid_data_alignment write try_reserve reserve_from
    ring_is_full commit fill finish_write received try_read read_from
fixed_ring_demo-received bytes sent whole = ground (arith, load-store bytes 0 sent, whole)

-- The first message, copied out whole.
abbrev Prints : List Message → Option CopyOut → Type 0
Prints [] o = Unit {0}
Prints (x ∷ _) o =
    (c : CopyOut) × (o ≡ some c)
    × (c.out ≡ some x.payload)
    × (c.out_size ≡ some (length x.payload))
    × (c.out_meta ≡ some x.meta)

abbrev FitsFirst : List Message → Type 0
FitsFirst [] = Unit {0}
FitsFirst (x ∷ _) = length x.payload ≤ varlen_buffer_size

by_Copied :
    {w : VarlenWriter} {ms : List Message} {o : Option (Bool × CopyOut × Segment)}
    → Copied varlen_buffer_size w ms o
    → FitsFirst ms
    → Prints ms (printed o)
by_Copied (no_message v h) fits = tt
by_Copied (copied {c = c} le v h out size meta) fits = (c, refl, out, size, meta)
by_Copied (too_small lt v h out size meta) fits = absurd (omega arith)

by_Delivered :
    {needed : ℕ} {s : Segment} {ms : List Message} {x : Message}
    {o : Option (Bool × VarlenWriter × Segment)}
    → Delivered needed s ms x o
    → needed ≤ 512
    → s.write_pos ≡ 0
    → s.read_pos ≡ 0
    → s.data_capacity ≡ 512
    → FitsFirst (ms ++ x ∷ [])
    → Prints (ms ++ x ∷ []) (read_back o)
by_Delivered (accepted {w'} {s'} enough v e room h) small w r c fits =
    by_Copied (read_into-Copied varlen_buffer_size w' s' v (omega (arith, v.commit_le)) h) fits
by_Delivered (rejected short v e h) small w r c fits = absurd (ground (arith, w, r, c))

varlen_ring-IsValid : (bytes : Memory) → IsValid varlen_writer (varlen_ring bytes)
unfolding init_control_block is_valid_data_alignment
varlen_ring-IsValid bytes = record {
  ring = record {
    alignment = (3, omega arith, refl);
    word = omega arith;
    room = omega arith;
    aligned = refl;
  };
  read_le = omega arith;
  commit_le = omega arith;
  write_le = omega arith;
  read_slot = refl;
  commit_slot = refl;
  write_slot = refl;
  free = λ _. refl;
  reserved = λ h. cc;
}

-- varlen_ring_demo prints the bytes that it has sent, as many as it has sent, and their meta, whatever the arena held before,
-- if they are at least one and fit the buffer.
pub varlen_ring_demo-printed :
    (bytes source : Memory) (sent : List ℕ)
    → 0 < length sent
    → length sent ≤ varlen_buffer_size
    → load source 0 (length sent) ≡ sent
    → (c : CopyOut) × (varlen_ring_demo bytes (length sent) source ≡ some c)
      × (c.out ≡ some sent)
      × (c.out_size ≡ some (length sent))
      × (c.out_meta ≡ some demo_meta)
unfolding varlen_ring_demo init_control_block is_valid_data_alignment
varlen_ring_demo-printed bytes source sent nonempty fits given =
    let rounded = needed_size-IsRounded (length sent) 8 (3, omega arith, refl) (omega arith) in
    by_Delivered
      (write-Delivered source sent demo_meta varlen_writer (varlen_ring bytes) []
        (varlen_ring-IsValid bytes) (omega arith) refl nonempty (omega arith) given
        (record {
          user_data = omega arith;
          timestamp_ns = omega arith;
          schema_id = omega arith;
          flags = omega arith;
        })
        (done refl))
      (omega (arith, rounded.close)) refl refl refl fits
