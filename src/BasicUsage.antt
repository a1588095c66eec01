-- ===== src/BasicUsage.antt =====
-- examples/basic_usage.cpp: one message through each ring, in one thread. What is printed is the
-- result; `none` stands for a demo that prints a complaint or nothing.
pub mod Printed
mod Tests
use spscring.Base.{ℕ, [], Bool, true, false, List, length, Option, none, some, ◌*◌}
use spscring.Memory.{Memory, load}
use spscring.Control.{blank, fixed, varlen, init_control_block}
use spscring.View.{Segment}
use spscring.Fixed.{FixedWriter, write, try_read}
use spscring.Varlen.Header.{MessageMeta}
use spscring.Varlen.Writer.{VarlenWriter, varlen_writer}
use spscring.Varlen.Writer
use spscring.Varlen.Copy.{CopyOut, read_into}

abbrev pub item_size : ℕ
item_size = 64

abbrev pub item_count : ℕ
item_count = 8

abbrev pub fixed_ring : Memory → Segment
fixed_ring bytes = record {
  header = (init_control_block blank (item_size * item_count) fixed 64 item_size).1;
  bytes = bytes;
  wakes = [];
}

-- The slot that try_read has found, as bytes.
unfoldable pub received : Segment → Option (List ℕ)
unfolding try_read
received s = elim (try_read s) [ none ↦ none | some (slot, size) ↦ some (load s.bytes slot size) ]

-- `bytes` is what the allocation has left in the arena, and `sent` the kItemSize bytes from the
-- literal on.
unfoldable pub fixed_ring_demo : Memory → List ℕ → Option (List ℕ)
unfolding init_control_block write received
fixed_ring_demo bytes sent =
    let (done, _, s) =
      write (record { reserved_end = 0; pending = false }) (fixed_ring bytes) sent in
    elim done [ true ↦ received s | false ↦ none ]

abbrev pub varlen_capacity : ℕ
varlen_capacity = 512

abbrev pub varlen_buffer_size : ℕ
varlen_buffer_size = 128

abbrev pub varlen_ring : Memory → Segment
varlen_ring bytes = record {
  header = (init_control_block blank varlen_capacity varlen 8 0).1;
  bytes = bytes;
  wakes = [];
}

-- Only user_data is set.
abbrev pub demo_meta : MessageMeta
demo_meta = record { user_data = 1; timestamp_ns = 0; schema_id = 0; flags = 0 }

-- What the copying read has put out, if it has returned true.
abbrev pub printed : Option (Bool × CopyOut × Segment) → Option CopyOut
printed none = none
printed (some (true, c, s)) = some c
printed (some (false, c, s)) = none

abbrev pub read_back : Option (Bool × VarlenWriter × Segment) → Option CopyOut
read_back none = none
read_back (some (true, w, s)) = printed (read_into true varlen_buffer_size s)
read_back (some (false, w, s)) = none

-- `source` holds `size` bytes from the string on.
unfoldable pub varlen_ring_demo : Memory → ℕ → Memory → Option CopyOut
unfolding init_control_block read_into
varlen_ring_demo bytes size source =
    read_back (Writer.write size (some source) demo_meta varlen_writer (varlen_ring bytes))
