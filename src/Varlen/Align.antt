-- ===== src/Varlen/Align.antt =====
-- Slot sizes: the least multiple of the alignment, and where 32-bit sums wrap.
use native.Mathlib.Nat.{div-add-mod', mul-mod_left, div-mul-le_self}
use spscring.Base.{
  ℕ, zero, suc, ◌+◌, ◌-◌, ◌*◌, ◌/◌, ◌%◌, ◌^◌, ◌≤◌, ◌<◌, ◌≡◌, u32_mod, add32, sub32,
  bit_and_high_bits, arith,
}
use spscring.Control.Geometry.{IsAlignment}
use spscring.Varlen.Header.{align_up_u32, varlen_slot_header_size}
use spscring.Varlen.Writer.{needed_size}

-- The mask keeps the multiple of the alignment below the 32-bit sum.
align_up_at :
    (k value : ℕ)
    → k ≤ 6
    → align_up_u32 value (2 ^ k) ≡ (value + 2 ^ k - 1) % u32_mod / 2 ^ k * 2 ^ k
unfolding align_up_u32
align_up_at zero v h = ground (arith, bit_and_high_bits 32 0 (sub32 (add32 v 1) 1))
align_up_at (suc zero) v h = ground (arith, bit_and_high_bits 31 1 (sub32 (add32 v 2) 1))
align_up_at (suc (suc zero)) v h = ground (arith, bit_and_high_bits 30 2 (sub32 (add32 v 4) 1))
align_up_at (suc (suc (suc zero))) v h =
    ground (arith, bit_and_high_bits 29 3 (sub32 (add32 v 8) 1))
align_up_at (suc (suc (suc (suc zero)))) v h =
    ground (arith, bit_and_high_bits 28 4 (sub32 (add32 v 16) 1))
align_up_at (suc (suc (suc (suc (suc zero))))) v h =
    ground (arith, bit_and_high_bits 27 5 (sub32 (add32 v 32) 1))
align_up_at (suc (suc (suc (suc (suc (suc zero)))))) v h =
    ground (arith, bit_and_high_bits 26 6 (sub32 (add32 v 64) 1))
align_up_at (suc (suc (suc (suc (suc (suc (suc k))))))) v h = absurd (omega arith)

align_up_eq :
    (value a : ℕ) → IsAlignment a → align_up_u32 value a ≡ (value + a - 1) % u32_mod / a * a
align_up_eq value a (k, small, e) = rw e (align_up_at k value small)

pub IsAlignment-bounds : (a : ℕ) → IsAlignment a → (0 < a) × (a ≤ 64)
IsAlignment-bounds a (zero, h, e) = omega arith
IsAlignment-bounds a (suc zero, h, e) = omega arith
IsAlignment-bounds a (suc (suc zero), h, e) = omega arith
IsAlignment-bounds a (suc (suc (suc zero)), h, e) = omega arith
IsAlignment-bounds a (suc (suc (suc (suc zero))), h, e) = omega arith
IsAlignment-bounds a (suc (suc (suc (suc (suc zero)))), h, e) = omega arith
IsAlignment-bounds a (suc (suc (suc (suc (suc (suc zero))))), h, e) = omega arith
IsAlignment-bounds a (suc (suc (suc (suc (suc (suc (suc k)))))), h, e) = absurd (omega arith)

-- The least multiple of the alignment that is not below the value.
pub record IsRounded (value alignment result : ℕ) : Type 0 where
  pub multiple : result % alignment ≡ 0
  pub above : value ≤ result
  pub close : result < value + alignment

-- `align_up_u32` rounds up to the least multiple of a valid alignment, if the sum fits 32 bits.
pub align_up_u32_lem :
    (value a : ℕ) → IsAlignment a → value + a ≤ u32_mod → IsRounded value a (align_up_u32 value a)
align_up_u32_lem value a al room =
    let bounds = IsAlignment-bounds a al in
    let e = align_up_eq value a al in
    let split = div-add-mod' (value + a - 1) a in
    record {
      multiple = rw e (mul-mod_left ((value + a - 1) % u32_mod / a) a);
      above = ground (arith, e, split);
      close = ground (arith, e, split);
    }

-- A payload whose size comes within the header and the alignment of 2^32 gets a slot of less than
-- the header's size and the alignment: the 32-bit sum has wrapped.
pub needed_size-wraps :
    (payload_size a : ℕ)
    → IsAlignment a
    → payload_size < u32_mod
    → u32_mod < payload_size + varlen_slot_header_size + a
    → needed_size payload_size a < varlen_slot_header_size + a
unfolding needed_size
needed_size-wraps n a al h over =
    let bounds = IsAlignment-bounds a al in
    let e = align_up_eq (add32 varlen_slot_header_size n) a al in
    let x = add32 varlen_slot_header_size n + a - 1 in
    omega (arith, e, div-mul-le_self (x % u32_mod) a)

-- A slot's size fits 32 bits.
pub needed_size-lt : (payload_size a : ℕ) → IsAlignment a → needed_size payload_size a < u32_mod
unfolding needed_size
needed_size-lt n a al =
    let e = align_up_eq (add32 varlen_slot_header_size n) a al in
    let x = add32 varlen_slot_header_size n + a - 1 in
    omega (arith, e, div-mul-le_self (x % u32_mod) a)

-- Below the bound of `needed_size-wraps` the slot is the header and the payload, rounded up.
pub needed_size-IsRounded :
    (payload_size a : ℕ)
    → IsAlignment a
    → payload_size + varlen_slot_header_size + a ≤ u32_mod
    → IsRounded (payload_size + varlen_slot_header_size) a (needed_size payload_size a)
unfolding needed_size
needed_size-IsRounded n a al room =
    let bounds = IsAlignment-bounds a al in
    let e : add32 varlen_slot_header_size n ≡ n + varlen_slot_header_size = omega arith in
    rw e (align_up_u32_lem (n + varlen_slot_header_size) a al room)
