-- ===== src/View/Pointers.antt =====
-- include/spscring/ring_view.hpp: the constructor and `get_ptr`, with addresses as numbers.
use native.Mathlib.Nat.{mod-mod_of_dvd, dvd_of_mod-eq-zero, zero-mod}
use spscring.Base.{
  ℕ, ◌+◌, ◌%◌, ◌≤◌, ◌<◌, ◌≡◌, ◌≢◌, ◌∙◌, refl, sym, ap, true, ◌||◌, not, ◌==◌, u64_mod, all_below,
  all_below_sound, arith,
}
use spscring.Control.{
  ControlBlock, sizeof_control_block, is_valid_data_alignment, validate_control_block,
}
use spscring.Control.Geometry.{is_valid_data_alignment-le}
use spscring.Positions.{add-IsMultiple-of, mod-IsMultiple, slot-fits}
use spscring.View.{Segment, map_pos, bytes_to_end}

pub record RingView : Type 0 where
  pub header_at : ℕ
  pub data_at : ℕ

unfoldable pub ring_view : ℕ → ControlBlock → RingView
ring_view address header = record { header_at = address; data_at = address + header.header_size }

unfoldable pub get_ptr : RingView → Segment → ℕ → ℕ
unfolding map_pos
get_ptr view s pos = view.data_at + map_pos s pos

alignments_divide : all_below 65 (λ a. not (is_valid_data_alignment a) || 64 % a == 0) ≡ true
unfolding all_below is_valid_data_alignment
alignments_divide = refl

-- A multiple of 64 is a multiple of every valid alignment.
aligned_for : (a x : ℕ) → is_valid_data_alignment a ≡ true → x % 64 ≡ 0 → x % a ≡ 0
aligned_for a x valid e =
    let small = is_valid_data_alignment-le a valid in
    let table =
      all_below_sound 65 (λ (b : ℕ). not (is_valid_data_alignment b) || 64 % b == 0)
        alignments_divide a in
    let divides : 64 % a ≡ 0 = ground (arith, table) in
    sym (mod-mod_of_dvd a x (dvd_of_mod-eq-zero a divides)) ∙ ap (λ t. t % a) e ∙ zero-mod a

-- In a segment at a multiple of 64 whose header passes the peer's check, the pointer to a slot lies
-- behind the header and is aligned as the ring's slots are, the slot's first `data_alignment` bytes
-- are within the data region, and so are `bytes_to_end` bytes, up to its end.
pub slot_pointer :
    (s : Segment) (address pos : ℕ)
    → validate_control_block s.header ≡ true
    → s.data_alignment ≢ 0
    → s.data_capacity % s.data_alignment ≡ 0
    → s.data_capacity < u64_mod
    → address % 64 ≡ 0
    → pos % s.data_alignment ≡ 0
    → let slot = get_ptr (ring_view address s.header) s pos in
      let region = address + sizeof_control_block in
      (slot % s.data_alignment ≡ 0)
      × (region ≤ slot)
      × (slot + s.data_alignment ≤ region + s.data_capacity)
      × (slot + bytes_to_end s pos ≡ region + s.data_capacity)
unfolding get_ptr ring_view bytes_to_end map_pos validate_control_block
slot_pointer s address pos valid some whole fits base at =
    let alignment : is_valid_data_alignment s.data_alignment ≡ true = ground (arith, valid) in
    let nonzero : s.data_capacity ≢ 0 = ground (arith, valid) in
    let size : s.header_size ≡ sizeof_control_block = ground (arith, valid) in
    let behind = aligned_for s.data_alignment (address + s.header_size) alignment (omega arith) in
    let index = mod-IsMultiple s.data_alignment s.data_capacity (omega arith) whole pos at in
    let fits_in = slot-fits s.data_alignment s.data_capacity (omega arith) whole pos at in
    (
      add-IsMultiple-of s.data_alignment (address + s.header_size) (pos % s.data_capacity) behind
          index,
      omega arith,
      omega arith,
      omega arith,
    )
