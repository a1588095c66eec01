-- ===== src/Control/Tests.antt =====
-- Runs of the geometry checks, and the properties at concrete geometries.
use spscring.Base.{◌≤◌, ◌<◌, ◌⊎◌, ◌≡◌, ◌↔◌, refl, true, false, arith}
use spscring.Control.{
  fixed, layout_code, ControlBlock, is_valid_data_alignment, init_control_block,
  validate_control_block, blank, sizeof_control_block,
}
use spscring.Control.Layout.{align_to, meta_layout, block_layout, static_asserts}
use spscring.Control.Layout.Lines.{LineNumbers, static_asserts_cases}
use spscring.Control.Geometry.{IsGeometry, init_control_block_iff, init_control_block-validate}

alignment_48 : is_valid_data_alignment 48 ≡ false
unfolding is_valid_data_alignment
alignment_48 = refl

init_control_block_iff_example :
    ((init_control_block blank 1000 fixed 64 8).0 ≡ true ↔ IsGeometry 1000 64)
    × ((init_control_block blank 1000 fixed 64 8).0 ≡ false
        → (init_control_block blank 1000 fixed 64 8).1 ≡ blank)
init_control_block_iff_example = init_control_block_iff blank 1000 fixed 64 8

abbrev accepted : ControlBlock
accepted = (init_control_block blank 1024 fixed 64 64).1

IsGeometry-accepted : IsGeometry 1024 64
IsGeometry-accepted = record {
  alignment = (6, omega arith, refl);
  nonzero = omega arith;
  aligned = omega arith;
}

init_control_block-validate_example :
    (validate_control_block accepted ≡ true)
    × (accepted.data_capacity ≡ 1024)
    × (accepted.data_alignment ≡ 64)
    × (accepted.layout_type ≡ layout_code fixed)
    × (accepted.fixed_item_size ≡ 64)
    × (accepted.write_pos ≡ 0)
    × (accepted.commit_pos ≡ 0)
    × (accepted.read_pos ≡ 0)
init_control_block-validate_example =
    init_control_block-validate blank 1024 fixed 64 64 IsGeometry-accepted

-- The default cache line gives the size that the model of `init_control_block` stores.
size_64 : (block_layout 64).size ≡ sizeof_control_block
unfolding block_layout meta_layout align_to
size_64 = refl

static_asserts_cases_example :
    ((64 ≤ 128)
      × (static_asserts 128 ≡ true)
      × LineNumbers 128 (block_layout 128) (meta_layout 128))
    ⊎ ((128 < 64) × (static_asserts 128 ≡ false))
static_asserts_cases_example =
    static_asserts_cases 128 (record { exponent = 7; power = refl; room = omega arith })
