-- ===== src/Control/Layout/Offsets.antt =====
-- Where the members of the control block of include/spscring/control_block.hpp stand, in cache lines.
use native.Mathlib.Nat.{add-mul-mod_self_right, mod-eq_of_lt, zero-mod}
use native.Mathlib.Decide.{dec_lt}
use spscring.Base.{ℕ, suc, ◌+◌, ◌-◌, ◌*◌, ◌%◌, ◌<◌, ◌≤◌, ◌≡◌, refl, sym, ap, ◌∙◌, arith}
use spscring.Control.Layout.{align_to, MetaLayout, meta_layout, block_layout}

mod-behind : (a q r : ℕ) → (r + q * a) % a ≡ r % a
mod-behind a q r = add-mul-mod_self_right r q a

-- Behind `q` alignments and not behind the next, that next one is where a member goes.
align_to-next : (a q x : ℕ) → q * a < x → x ≤ suc q * a → align_to a x ≡ suc q * a
unfolding align_to
align_to-next a q x h k =
    let split : x ≡ x - q * a + q * a = omega arith in
    elim (dec_lt (x - q * a) a) [
      | yes p ↦
          let low : x % a ≡ x - q * a =
            ap (λ t. t % a) split ∙ mod-behind a q (x - q * a) ∙ mod-eq_of_lt p in
          rw (low, mod-eq_of_lt {n = a - (x - q * a)} {m = a} (omega arith)) (omega arith)
      | no p ↦
          let whole : x ≡ 0 + suc q * a = omega arith in
          let low : x % a ≡ 0 = ap (λ t. t % a) whole ∙ mod-behind a (suc q) 0 ∙ zero-mod a in
          rw low (grind arith)
    ]

align_to-zero : (a : ℕ) → align_to a 0 ≡ 0
unfolding align_to
align_to-zero a = grind arith

-- An offset that is aligned already.
align_to-at : (a q x : ℕ) → 0 < a → x ≡ suc q * a → align_to a x ≡ x
align_to-at a q x pos e = align_to-next a q x (grind arith) (omega arith) ∙ sym e

module _ (a m : ℕ) (e : a ≡ 16 * m) (pos : 0 < m) where
  -- Each front starts a cache line, and its word stands 8 bytes behind it.
  pub meta_layout_eq : meta_layout a ≡ (record {
    write_pos = 0;
    read_pos = 1 * a;
    read_wake_seq = 1 * a + 8;
    commit_pos = 2 * a;
    commit_seq = 2 * a + 8;
    size = 3 * a;
  })
  unfolding meta_layout
  meta_layout_eq =
      let read = align_to-next a 0 (0 + 8 + (a - 8)) (omega arith) (omega arith) in
      let wake = align_to-at 4 (4 * m + 1) (1 * a + 8) (omega arith) (omega arith) in
      let commit = align_to-next a 1 (1 * a + 8 + 4 + (a - 8 - 4)) (omega arith) (omega arith) in
      let word = align_to-at 4 (8 * m + 1) (2 * a + 8) (omega arith) (omega arith) in
      let end = align_to-next a 2 (2 * a + 8 + 4 + (a - 8 - 4)) (omega arith) (omega arith) in
      rw (align_to-zero a, read, wake, commit, word, end) refl

-- The five members behind `magic`.
fields :
    (align_to 2 4 ≡ 4)
    × (align_to 4 6 ≡ 8)
    × (align_to 4 12 ≡ 12)
    × (align_to 4 16 ≡ 16)
    × (align_to 4 20 ≡ 20)
unfolding align_to
fields = (refl, refl, refl, refl, refl)

module _ (a m : ℕ) (e : a ≡ 64 * m) (pos : 0 < m) where
  -- The fronts start the second cache line, and the geometry the fifth.
  pub block_layout_eq : block_layout a ≡ (record {
    magic = 0;
    version_major = 4;
    version_minor = 8;
    header_size = 12;
    layout_type = 16;
    reserved0 = 20;
    rb_meta = 1 * a;
    data_capacity = 1 * a + 3 * a;
    data_alignment = 1 * a + 3 * a + 8;
    fixed_item_size = 1 * a + 3 * a + 8 + 4;
    reserved = 1 * a + 3 * a + 8 + 4 + 4;
    size = 5 * a;
  })
  unfolding block_layout
  block_layout_eq =
      let fronts : (meta_layout a).size ≡ 3 * a =
        ap (λ (l : MetaLayout). l.size) (meta_layout_eq a (4 * m) (omega arith) (omega arith)) in
      let start = align_to-next a 0 24 (omega arith) (omega arith) in
      let capacity = align_to-at 8 (32 * m - 1) (1 * a + 3 * a) (omega arith) (omega arith) in
      let alignment = align_to-at 4 (64 * m + 1) (1 * a + 3 * a + 8) (omega arith) (omega arith) in
      let item = align_to-at 4 (64 * m + 2) (1 * a + 3 * a + 8 + 4) (omega arith) (omega arith) in
      let rest =
        align_to-at 8 (32 * m + 1) (1 * a + 3 * a + 8 + 4 + 4) (omega arith) (omega arith) in
      let end = align_to-next a 4 (1 * a + 3 * a + 8 + 4 + 4 + 48) (omega arith) (omega arith) in
      rw
        (
          fields.0, fields.1, fields.2, fields.3, fields.4, start, fronts, capacity, alignment,
          item, rest, end,
        )
        refl
