-- ===== src/Control/Layout/Lines.antt =====
-- The cache lines that the members of the control block of include/spscring/control_block.hpp stand
-- on, and the static_asserts.
use native.Mathlib.Nat.{one-le-pow}
use spscring.Base.{
  ℕ, zero, suc, ◌+◌, ◌*◌, ◌/◌, ◌^◌, ◌<◌, ◌≤◌, ◌≡◌, ◌⊎◌, inl, inr, refl, ap, ◌∙◌, true, false, arith,
}
use spscring.Control.Layout.{
  align_to, MetaLayout, meta_layout, BlockLayout, block_layout, static_asserts, IsCacheLine,
}
use spscring.Control.Layout.Offsets.{meta_layout_eq, block_layout_eq}

-- The cache line of an offset in the block.
abbrev line_of : ℕ → ℕ → ℕ
line_of cache_line offset = offset / cache_line

-- The cache line of each front, of the end of each word, and of the geometry.
pub record LineNumbers (cache_line : ℕ) (block : BlockLayout) (l : MetaLayout) : Type 0 where
  pub producer_front : line_of cache_line (block.rb_meta + l.write_pos) ≡ 1
  pub consumer_front : line_of cache_line (block.rb_meta + l.read_pos) ≡ 2
  pub consumer_word : line_of cache_line (block.rb_meta + l.read_wake_seq + 3) ≡ 2
  pub published_front : line_of cache_line (block.rb_meta + l.commit_pos) ≡ 3
  pub producer_word : line_of cache_line (block.rb_meta + l.commit_seq + 3) ≡ 3
  pub geometry : line_of cache_line block.data_capacity ≡ 4

module _ (a m : ℕ) (e : a ≡ 64 * m) (pos : 0 < m) where
  asserts_hold : static_asserts a ≡ true
  unfolding static_asserts
  asserts_hold =
      ground
        (arith, meta_layout_eq a (4 * m) (omega arith) (omega arith), block_layout_eq a m e pos)

  on_line : (x q r : ℕ) → x ≡ q * a + r → r < a → x / a ≡ q
  on_line x q r split h = grind arith

  owners : LineNumbers a (block_layout a) (meta_layout a)
  owners =
      rw (meta_layout_eq a (4 * m) (omega arith) (omega arith), block_layout_eq a m e pos)
        (record {
          producer_front = on_line _ 1 0 (omega arith) (omega arith);
          consumer_front = on_line _ 2 0 (omega arith) (omega arith);
          consumer_word = on_line _ 2 11 (omega arith) (omega arith);
          published_front = on_line _ 3 0 (omega arith) (omega arith);
          producer_word = on_line _ 3 11 (omega arith) (omega arith);
          geometry = on_line _ 4 0 (omega arith) (omega arith);
        })

asserts_fail : (static_asserts 16 ≡ false) × (static_asserts 32 ≡ false)
unfolding static_asserts block_layout meta_layout align_to
asserts_fail = (refl, refl)

data LineCases (a : ℕ) : Type 0 where
  small : static_asserts a ≡ false → a < 64 → LineCases a
  large : (m : ℕ) → a ≡ 64 * m → 0 < m → LineCases a

-- From 64 on, a power of two is a multiple of 64.
line_cases : (a k : ℕ) → a ≡ 2 ^ k → 4 ≤ k → LineCases a
line_cases a zero e h = absurd (omega arith)
line_cases a (suc zero) e h = absurd (omega arith)
line_cases a (suc (suc zero)) e h = absurd (omega arith)
line_cases a (suc (suc (suc zero))) e h = absurd (omega arith)
line_cases a (suc (suc (suc (suc zero)))) e h =
    small (ap static_asserts e ∙ asserts_fail.0) (omega arith)
line_cases a (suc (suc (suc (suc (suc zero))))) e h =
    small (ap static_asserts e ∙ asserts_fail.1) (omega arith)
line_cases a (suc (suc (suc (suc (suc (suc k)))))) e h =
    large (2 ^ k) (omega arith) (one-le-pow k 2 (omega arith))

-- For cache lines of 64 bytes or more the assertions on sizes and offsets hold, write_pos is
-- on cache line 1, read_pos with read_wake_seq on line 2, commit_pos with commit_seq on line 3, and
-- the geometry starts on line 4; for smaller ones an assertion fails.
pub static_asserts_cases :
    (cache_line : ℕ)
    → IsCacheLine cache_line
    → ((64 ≤ cache_line)
        × (static_asserts cache_line ≡ true)
        × LineNumbers cache_line (block_layout cache_line) (meta_layout cache_line))
      ⊎ ((cache_line < 64) × (static_asserts cache_line ≡ false))
static_asserts_cases a l = elim (line_cases a l.exponent l.power l.room) [
  | small fails less ↦ inr (less, fails)
  | large m e pos ↦ inl (omega arith, asserts_hold a m e pos, owners a m e pos)
]
