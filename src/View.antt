-- ===== src/View.antt =====
-- include/spscring/ring_view.hpp: a control block and the data region behind it, which writers and
-- readers share. A pointer into the data region is its offset from `data_`.
pub mod Usage
pub mod Pointers
mod Tests
use spscring.Base.{
  ℕ, ◌+◌, ◌-◌, ◌%◌, Bool, List, [], ◌∷◌, ltb, leb, ◌==◌, if◌then◌else◌, add32, sub32, sub64, not32,
  bit_and,
}
use spscring.Memory.{Memory}
use spscring.Control.{ControlBlock}
use spscring.Notify.{bump_notify_word}

-- The two words that a peer blocks on.
pub data NotifyWord : Type 0 where
  commit_seq_word : NotifyWord
  read_wake_seq_word : NotifyWord

-- `wakes` records the calls of `atomic_notify_all`, newest first.
pub record Segment : Type 0 where
  pub header : ControlBlock
  pub open header use *
  pub bytes : Memory
  pub wakes : List NotifyWord

unfoldable pub capacity : Segment → ℕ
capacity s = s.data_capacity

unfoldable pub used_bytes : Segment → ℕ
used_bytes s =
    let used = if leb s.read_pos s.write_pos then sub64 s.write_pos s.read_pos else 0 in
    if ltb s.data_capacity used then s.data_capacity else used

unfoldable pub available_bytes : Segment → ℕ
unfolding capacity used_bytes
available_bytes s = sub64 (capacity s) (used_bytes s)

-- `double`s are a parameter: 0.0 and the quotient of two sizes.
unfoldable pub fill_ratio {ℓ} : {A : Type ℓ} → A → (ℕ → ℕ → A) → Segment → A
unfolding capacity
fill_ratio zero quotient s =
    let cap = capacity s in if cap == 0 then zero else quotient (used_bytes s) cap

unfoldable pub map_pos : Segment → ℕ → ℕ
map_pos s pos = pos % s.data_capacity

unfoldable pub bytes_to_end : Segment → ℕ → ℕ
unfolding map_pos
bytes_to_end s pos = sub64 s.data_capacity (map_pos s pos)

unfoldable pub align_size : Segment → ℕ → ℕ
align_size s size =
    let align = s.data_alignment in bit_and (sub32 (add32 size align) 1) (not32 (sub32 align 1))

-- if (bump_notify_word(hdr.rb_meta.commit_seq)) atomic_notify_all(&hdr.rb_meta.commit_seq);
unfoldable pub wake_consumer : Segment → Segment
unfolding bump_notify_word
wake_consumer s =
    let (wake, word) = bump_notify_word s.commit_seq in
    record s {
      header = record s.header { rb_meta = record s.rb_meta { commit_seq = word } };
      wakes = if wake then commit_seq_word ∷ s.wakes else s.wakes;
    }

-- if (bump_notify_word(hdr.rb_meta.read_wake_seq)) atomic_notify_all(&hdr.rb_meta.read_wake_seq);
unfoldable pub wake_producer : Segment → Segment
unfolding bump_notify_word
wake_producer s =
    let (wake, word) = bump_notify_word s.read_wake_seq in
    record s {
      header = record s.header { rb_meta = record s.rb_meta { read_wake_seq = word } };
      wakes = if wake then read_wake_seq_word ∷ s.wakes else s.wakes;
    }

-- The stores to the three fronts.
unfoldable pub store_write_pos : ℕ → Segment → Segment
store_write_pos pos s = record s {
  header = record s.header { rb_meta = record s.rb_meta { write_pos = pos } };
}

unfoldable pub store_commit_pos : ℕ → Segment → Segment
store_commit_pos pos s = record s {
  header = record s.header { rb_meta = record s.rb_meta { commit_pos = pos } };
}

unfoldable pub store_read_pos : ℕ → Segment → Segment
store_read_pos pos s = record s {
  header = record s.header { rb_meta = record s.rb_meta { read_pos = pos } };
}

-- The waiter's stores to the two words.
unfoldable pub store_commit_seq : ℕ → Segment → Segment
store_commit_seq word s = record s {
  header = record s.header { rb_meta = record s.rb_meta { commit_seq = word } };
}

unfoldable pub store_read_wake_seq : ℕ → Segment → Segment
store_read_wake_seq word s = record s {
  header = record s.header { rb_meta = record s.rb_meta { read_wake_seq = word } };
}
