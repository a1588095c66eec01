-- ===== src/Control.antt =====
-- include/spscring/control_block.hpp: the header of a segment, its initialization and its checks.
-- Fields of a C++ integer type hold a number below the type's modulus; `std::atomic` fields hold
-- their value.
pub mod Geometry
mod Layout
mod Tests
use spscring.Base.{
  ℕ, ◌*◌, ◌%◌, ◌≡◌, Bool, true, false, not, ◌&&◌, ◌||◌, List, [], ◌∷◌, bit_and, sub32, leb, ◌==◌,
  if◌then◌else◌,
}

pub data LayoutType : Type 0 where
  fixed : LayoutType
  varlen : LayoutType

-- static_cast<std::uint32_t>(layout)
abbrev pub layout_code : LayoutType → ℕ
layout_code fixed = 0
layout_code varlen = 1

abbrev pub cache_line_size : ℕ
cache_line_size = 64

-- The fronts are logical byte offsets; the two sequence words are 32-bit futex words.
pub record Meta : Type 0 where
  pub write_pos : ℕ
  pub read_pos : ℕ
  pub read_wake_seq : ℕ
  pub commit_pos : ℕ
  pub commit_seq : ℕ

pub record ControlBlock : Type 0 where
  pub magic : ℕ
  pub version_major : ℕ
  pub version_minor : ℕ
  pub header_size : ℕ
  pub layout_type : ℕ
  pub reserved0 : ℕ
  pub rb_meta : Meta
  pub open rb_meta use *
  pub data_capacity : ℕ
  pub data_alignment : ℕ
  pub fixed_item_size : ℕ
  pub reserved : List ℕ

abbrev pub expected_magic : ℕ
expected_magic = 0x53505343

abbrev pub expected_version_major : ℕ
expected_version_major = 0

abbrev pub expected_version_minor : ℕ
expected_version_minor = 2

-- sizeof(control_block), pinned by a static_assert.
abbrev pub sizeof_control_block : ℕ
sizeof_control_block = 5 * cache_line_size

unfoldable pub is_valid_data_alignment : ℕ → Bool
is_valid_data_alignment alignment =
    not (alignment == 0) && bit_and alignment (sub32 alignment 1) == 0 && leb alignment 64

abbrev pub zero_meta : Meta
zero_meta = record {
  write_pos = 0;
  read_pos = 0;
  read_wake_seq = 0;
  commit_pos = 0;
  commit_seq = 0;
}

-- A header of zeros, as its default member initializers leave it.
abbrev pub blank : ControlBlock
blank = record {
  magic = 0;
  version_major = 0;
  version_minor = 0;
  header_size = 0;
  layout_type = 0;
  reserved0 = 0;
  rb_meta = zero_meta;
  data_capacity = 0;
  data_alignment = 0;
  fixed_item_size = 0;
  reserved = 0 ∷ 0 ∷ 0 ∷ 0 ∷ 0 ∷ 0 ∷ [];
}

-- The result, and the header as the call leaves it.
unfoldable pub init_control_block : ControlBlock → ℕ → LayoutType → ℕ → ℕ → Bool × ControlBlock
init_control_block header data_capacity layout data_alignment fixed_item_size =
    if not (is_valid_data_alignment data_alignment)
    then (false, header)
    else if data_capacity == 0 || not (data_capacity % data_alignment == 0)
    then (false, header)
    else (
      true,
      record header {
        magic = expected_magic;
        version_major = expected_version_major;
        version_minor = expected_version_minor;
        header_size = sizeof_control_block;
        layout_type = layout_code layout;
        reserved0 = 0;
        rb_meta = zero_meta;
        data_capacity = data_capacity;
        data_alignment = data_alignment;
        fixed_item_size = fixed_item_size;
        reserved = 0 ∷ 0 ∷ 0 ∷ 0 ∷ 0 ∷ 0 ∷ [];
      },
    )

unfoldable pub validate_control_block : ControlBlock → Bool
validate_control_block header =
    header.magic == expected_magic
    && header.version_major == expected_version_major
    && header.header_size == sizeof_control_block
    && (header.data_alignment == 0 || is_valid_data_alignment header.data_alignment)
    && not (header.data_capacity == 0)
