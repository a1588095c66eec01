-- ===== src/Fixed.antt =====
-- include/spscring/fixed_writer.hpp and fixed_reader.hpp: the two sides of a ring of slots of
-- `fixed_item_size` bytes. A method takes the segment and the object's own fields and returns them
-- as it leaves them; a slot pointer is an offset, `none` is nullptr.
pub mod Valid
pub mod Contents
pub mod Refine
pub mod Consume
pub mod Run
pub mod Spin
pub mod Threads
pub mod Blocking
mod Tests
use spscring.Base.{
  ℕ, zero, suc, ◌+◌, ◌-◌, ◌/◌, ◌%◌, ◌≡◌, Bool, true, false, not, ◌&&◌, List, [], ◌∷◌, Option, none,
  some, length, ltb, leb, ◌==◌, if◌then◌else◌, add64, mul64, u32,
}
use spscring.Memory.{Memory, store, load}
use spscring.Control.{LayoutType, fixed, layout_code, ControlBlock, validate_control_block}
use spscring.View.{
  Segment, store_write_pos, store_commit_pos, store_read_pos, wake_consumer, wake_producer,
}

unfoldable pub is_valid_fixed_ring : ControlBlock → Bool
is_valid_fixed_ring header =
    validate_control_block header
    && header.layout_type == layout_code fixed
    && not (header.fixed_item_size == 0)
    && header.data_capacity % header.fixed_item_size == 0

-- The fields of a `fixed_writer`.
pub record FixedWriter : Type 0 where
  pub reserved_end : ℕ
  pub pending : Bool

-- The constructor; `none` is std::abort().
unfoldable pub fixed_writer : ControlBlock → Option FixedWriter
fixed_writer header =
    if not (header.fixed_item_size == 0) && not (header.data_capacity % header.fixed_item_size == 0)
    then none
    else some (record { reserved_end = 0; pending = false })

-- The test of `try_reserve` on the two fronts that it has loaded.
unfoldable pub ring_is_full : ℕ → ℕ → ℕ → Bool
ring_is_full capacity write read = write % capacity == read % capacity && ltb read write

-- The rest of `try_reserve`, once it has loaded `write_pos` and `read_pos`.
unfoldable pub reserve_from : ℕ → ℕ → FixedWriter → Segment → Option ℕ × FixedWriter × Segment
unfolding ring_is_full store_write_pos
reserve_from write read w s =
    if ring_is_full s.data_capacity write read
    then (none, w, s)
    else (let end = add64 write s.fixed_item_size in
        (
          some (write % s.data_capacity),
          record { reserved_end = end; pending = true },
          store_write_pos end s,
        ))

unfoldable pub try_reserve : FixedWriter → Segment → Option ℕ × FixedWriter × Segment
unfolding reserve_from
try_reserve w s = if w.pending then (none, w, s) else reserve_from s.write_pos s.read_pos w s

unfoldable pub commit : FixedWriter → Segment → FixedWriter × Segment
unfolding store_commit_pos wake_consumer
commit w s =
    if not w.pending
    then (w, s)
    else (record w { pending = false }, wake_consumer (store_commit_pos w.reserved_end s))

-- std::memcpy(slot, data, size), skipped when size is 0
unfoldable pub fill : ℕ → List ℕ → Segment → Segment
fill slot payload s =
    if ltb 0 (length payload) then record s { bytes = store s.bytes slot payload } else s

-- `write` after its call of `try_reserve`.
unfoldable pub finish_write :
    List ℕ → Option ℕ × FixedWriter × Segment → Bool × FixedWriter × Segment
unfolding fill commit
finish_write payload (none, w, s) = (false, w, s)
finish_write payload (some slot, w, s) =
    let (w', s') = commit w (fill slot payload s) in (true, w', s')

unfoldable pub write : FixedWriter → Segment → List ℕ → Bool × FixedWriter × Segment
unfolding try_reserve finish_write
write w s payload = finish_write payload (try_reserve w s)

unfoldable pub item_size : Segment → ℕ
item_size s = s.fixed_item_size

unfoldable pub item_count : Segment → ℕ
item_count s = s.data_capacity / s.fixed_item_size

-- The slot with the size that goes through `out_size`, on the fronts that `try_read` has loaded.
unfoldable pub read_from : ℕ → ℕ → Segment → Option (ℕ × ℕ)
read_from read committed s =
    if leb committed read then none else some (read % s.data_capacity, u32 s.fixed_item_size)

unfoldable pub try_read : Segment → Option (ℕ × ℕ)
unfolding read_from
try_read s = read_from s.read_pos s.commit_pos s

unfoldable pub read_advance : ℕ → Segment → Segment
unfolding store_read_pos wake_producer
read_advance n s = wake_producer (store_read_pos (add64 s.read_pos (mul64 n s.fixed_item_size)) s)

-- The bytes copied out, or `none` for false.
unfoldable pub read : ℕ → Segment → Option (List ℕ) × Segment
unfolding try_read read_advance
read size s = elim (try_read s) [
  | none ↦ (none, s)
  | some (slot, _) ↦ (some (load s.bytes slot size), read_advance 1 s)
]
