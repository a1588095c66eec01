-- ===== src/Control/Geometry.antt =====
-- Which geometries `init_control_block` accepts, and what it leaves in the header.
use spscring.Base.{
  ℕ, ◌%◌, ◌^◌, ◌≤◌, ◌≡◌, ◌≢◌, ◌↔◌, refl, Bool, true, false, ◌||◌, ◌&&◌, not, all_below,
  all_below_sound, ◌==◌, leb, arith, if◌then◌else◌,
}
use spscring.Control.{
  LayoutType, layout_code, ControlBlock, is_valid_data_alignment, init_control_block,
  validate_control_block,
}

-- The powers of two from 1 to 64.
abbrev pub IsAlignment : ℕ → Type 0
IsAlignment a = (k : ℕ) × (k ≤ 6) × (a ≡ 2 ^ k)

log_of : ℕ → ℕ
log_of a =
    if a == 1
    then 0
    else if a == 2
    then 1
    else if a == 4
    then 2
    else if a == 8
    then 3
    else if a == 16
    then 4
    else if a == 32
    then 5
    else 6

-- Every number up to 64 that passes the check is the power of two that `log_of` finds.
small_alignments :
    all_below 65 (λ a. not (is_valid_data_alignment a) || (a == 2 ^ log_of a && leb (log_of a) 6))
    ≡ true
unfolding all_below is_valid_data_alignment log_of
small_alignments = refl

powers_pass : all_below 7 (λ k. is_valid_data_alignment (2 ^ k)) ≡ true
unfolding all_below is_valid_data_alignment
powers_pass = refl

pub is_valid_data_alignment-le : (a : ℕ) → is_valid_data_alignment a ≡ true → a ≤ 64
unfolding is_valid_data_alignment
is_valid_data_alignment-le a h = ground arith

-- `is_valid_data_alignment` accepts exactly the powers of two from 1 to 64.
pub is_valid_data_alignment_iff : (a : ℕ) → (is_valid_data_alignment a ≡ true) ↔ IsAlignment a
is_valid_data_alignment_iff a = (sound, complete)
  where
    sound : is_valid_data_alignment a ≡ true → IsAlignment a
    sound h =
        let table =
          all_below_sound 65
            (λ (b : ℕ). not (is_valid_data_alignment b) || (b == 2 ^ log_of b && leb (log_of b) 6))
            small_alignments a in
        let small = is_valid_data_alignment-le a h in
        (log_of a, ground (arith, table), ground (arith, table))

    complete : IsAlignment a → is_valid_data_alignment a ≡ true
    complete (k, small, e) =
        rw e (
          all_below_sound 7 (λ (j : ℕ). is_valid_data_alignment (2 ^ j)) powers_pass k
            (omega arith))

-- A geometry that a ring can be laid out with.
pub record IsGeometry (data_capacity data_alignment : ℕ) : Type 0 where
  pub alignment : IsAlignment data_alignment
  pub nonzero : data_capacity ≢ 0
  pub aligned : data_capacity % data_alignment ≡ 0

module _ (header : ControlBlock) (capacity : ℕ) (layout : LayoutType)
    (alignment item_size : ℕ) where
  abbrev result : Bool × ControlBlock
  result = init_control_block header capacity layout alignment item_size

  -- `init_control_block` succeeds exactly for an alignment that is a power of two up to 64 and a
  -- non-zero capacity that is its multiple, whatever the item size, and otherwise leaves the header
  -- alone.
  pub init_control_block_iff :
      ((result.0 ≡ true) ↔ IsGeometry capacity alignment) × (result.0 ≡ false → result.1 ≡ header)
  unfolding init_control_block
  init_control_block_iff = ((sound, complete), λ h. ground arith)
    where
      sound : result.0 ≡ true → IsGeometry capacity alignment
      sound h = record {
        alignment = (is_valid_data_alignment_iff alignment).0 (ground arith);
        nonzero = ground arith;
        aligned = ground arith;
      }

      complete : IsGeometry capacity alignment → result.0 ≡ true
      complete g =
          let valid = (is_valid_data_alignment_iff alignment).1 g.alignment in
          ground (arith, g.nonzero, g.aligned)

  -- What a successful `init_control_block` leaves passes the peer's check, with the geometry asked
  -- for and all three fronts at 0.
  pub init_control_block-validate :
      IsGeometry capacity alignment
      → (validate_control_block result.1 ≡ true)
        × (result.1.data_capacity ≡ capacity)
        × (result.1.data_alignment ≡ alignment)
        × (result.1.layout_type ≡ layout_code layout)
        × (result.1.fixed_item_size ≡ item_size)
        × (result.1.write_pos ≡ 0)
        × (result.1.commit_pos ≡ 0)
        × (result.1.read_pos ≡ 0)
  unfolding init_control_block validate_control_block
  init_control_block-validate g =
      let valid = (is_valid_data_alignment_iff alignment).1 g.alignment in
      ground (arith, g.nonzero, g.aligned)
