-- ===== src/View/Tests.antt =====
-- A segment seen through its view.
use spscring.Base.{◌%◌, ◌+◌, ◌-◌, ◌≤◌, ◌≡◌, refl, [], arith, ◌<◌}
use spscring.Control.{
  blank, fixed, init_control_block, validate_control_block, is_valid_data_alignment,
}
use spscring.View.Pointers.{ring_view, get_ptr, slot_pointer}
use spscring.View.{Segment, used_bytes, available_bytes, fill_ratio, bytes_to_end}
use spscring.View.Usage.{fraction, fill_level}

abbrev half_full : Segment
half_full = record {
  header = record blank {
    rb_meta = record {
      write_pos = 40;
      read_pos = 24;
      read_wake_seq = 0;
      commit_pos = 40;
      commit_seq = 0;
    };
    data_capacity = 32;
  };
  bytes = λ _. 0;
  wakes = [];
}

fill_level_example :
    (used_bytes half_full ≤ 32)
    × (used_bytes half_full + available_bytes half_full ≡ 32)
    × (24 ≤ half_full.write_pos
        → half_full.write_pos ≤ 24 + half_full.data_capacity
        → used_bytes half_full ≡ half_full.write_pos - 24)
    × (0 < (fill_ratio (0, 1) fraction half_full).1)
    × ((fill_ratio (0, 1) fraction half_full).0 ≤ (fill_ratio (0, 1) fraction half_full).1)
fill_level_example = fill_level half_full (omega arith) (omega arith)

-- The write front stands at index 8.
bytes_to_end-half : bytes_to_end half_full 40 ≡ 24
unfolding bytes_to_end
bytes_to_end-half = refl

-- A round later the position 40 is at index 8 again.
abbrev mapped : Segment
unfolding init_control_block
mapped = record half_full { header = (init_control_block blank 32 fixed 8 8).1 }

slot_pointer_example :
    (get_ptr (ring_view 4096 mapped.header) mapped 40 % 8 ≡ 0)
    × (4096 + 320 ≤ get_ptr (ring_view 4096 mapped.header) mapped 40)
    × (get_ptr (ring_view 4096 mapped.header) mapped 40 + 8 ≤ 4096 + 320 + 32)
    × (get_ptr (ring_view 4096 mapped.header) mapped 40 + bytes_to_end mapped 40 ≡ 4096 + 320 + 32)
unfolding validate_control_block init_control_block is_valid_data_alignment
slot_pointer_example = slot_pointer mapped 4096 40 refl (omega arith) refl (omega arith) refl refl
