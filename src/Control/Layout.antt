-- ===== src/Control/Layout.antt =====
-- include/spscring/control_block.hpp: where the members of `meta` and of `control_block` stand, and
-- the assertions about it. A member of a standard-layout struct stands at the first multiple of its
-- alignment behind the member before it, and the struct's size is rounded up to its alignment. An
-- atomic is laid out like the integer that it holds. SPSCRING_CACHE_LINE_SIZE, which a build may
-- override, is a parameter.
mod Offsets
pub mod Lines
use native.Mathlib.Nat.{add-mul-mod_self_right, mod-eq_of_lt, zero-mod, one-le-pow}
use native.Mathlib.Decide.{dec_lt}
use spscring.Base.{
  ℕ, zero, suc, ◌+◌, ◌-◌, ◌*◌, ◌/◌, ◌%◌, ◌^◌, ◌<◌, ◌≤◌, ◌≡◌, ◌⊎◌, inl, inr, refl, sym, ap, ◌∙◌,
  Bool, true, false, ◌&&◌, ◌==◌, arith,
}

-- The next multiple of an alignment.
unfoldable pub align_to : ℕ → ℕ → ℕ
align_to alignment offset = offset + (alignment - offset % alignment) % alignment

-- The offsets of the fronts and words in `meta`, and its size.
pub record MetaLayout : Type 0 where
  pub write_pos : ℕ
  pub read_pos : ℕ
  pub read_wake_seq : ℕ
  pub commit_pos : ℕ
  pub commit_seq : ℕ
  pub size : ℕ

unfoldable pub meta_layout : ℕ → MetaLayout
meta_layout cache_line =
    let write_pos = align_to cache_line 0 in
    let padding1 = write_pos + 8 in
    let read_pos = align_to cache_line (padding1 + (cache_line - 8)) in
    let read_wake_seq = align_to 4 (read_pos + 8) in
    let padding2 = read_wake_seq + 4 in
    let commit_pos = align_to cache_line (padding2 + (cache_line - 8 - 4)) in
    let commit_seq = align_to 4 (commit_pos + 8) in
    let padding3 = commit_seq + 4 in
    record {
      write_pos = write_pos;
      read_pos = read_pos;
      read_wake_seq = read_wake_seq;
      commit_pos = commit_pos;
      commit_seq = commit_seq;
      size = align_to cache_line (padding3 + (cache_line - 8 - 4));
    }

-- The offsets of the members of `control_block`, and its size.
pub record BlockLayout : Type 0 where
  pub magic : ℕ
  pub version_major : ℕ
  pub version_minor : ℕ
  pub header_size : ℕ
  pub layout_type : ℕ
  pub reserved0 : ℕ
  pub rb_meta : ℕ
  pub data_capacity : ℕ
  pub data_alignment : ℕ
  pub fixed_item_size : ℕ
  pub reserved : ℕ
  pub size : ℕ

unfoldable pub block_layout : ℕ → BlockLayout
unfolding meta_layout
block_layout cache_line =
    let version_major = align_to 2 4 in
    let version_minor = align_to 4 (version_major + 2) in
    let header_size = align_to 4 (version_minor + 4) in
    let layout_type = align_to 4 (header_size + 4) in
    let reserved0 = align_to 4 (layout_type + 4) in
    let rb_meta = align_to cache_line (reserved0 + 4) in
    let data_capacity = align_to 8 (rb_meta + (meta_layout cache_line).size) in
    let data_alignment = align_to 4 (data_capacity + 8) in
    let fixed_item_size = align_to 4 (data_alignment + 4) in
    let reserved = align_to 8 (fixed_item_size + 4) in
    record {
      magic = 0;
      version_major = version_major;
      version_minor = version_minor;
      header_size = header_size;
      layout_type = layout_type;
      reserved0 = reserved0;
      rb_meta = rb_meta;
      data_capacity = data_capacity;
      data_alignment = data_alignment;
      fixed_item_size = fixed_item_size;
      reserved = reserved;
      size = align_to cache_line (reserved + 6 * 8);
    }

-- The static_asserts on sizes and offsets.
unfoldable pub static_asserts : ℕ → Bool
static_asserts cache_line =
    (meta_layout cache_line).size == 3 * cache_line
    && (block_layout cache_line).rb_meta == cache_line
    && (block_layout cache_line).data_capacity == 4 * cache_line
    && (block_layout cache_line).size == 5 * cache_line

-- The sizes that a build may choose: powers of two, as alignas takes them, with room for two words.
pub record IsCacheLine (cache_line : ℕ) : Type 0 where
  pub exponent : ℕ
  pub power : cache_line ≡ 2 ^ exponent
  pub room : 4 ≤ exponent
