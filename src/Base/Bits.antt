-- ===== src/Base/Bits.antt =====
-- `bit_and` with the two masks that the code uses: the low k ones, and all bits but the low k.
use Prim.Native.Nat.{
  ℕ, zero, suc, ◌+◌, ◌-◌, ◌*◌, ◌/◌, ◌%◌, ◌^◌, ◌≤◌, ◌<◌, min, max, bit_and, bit_or, digits,
  bit_and-bitwise, bit_or-bitwise,
}
use mathlib.Core.Path.{◌≡◌, refl, ap}
use mathlib.Core.Bool.{Bool, true, ◌&&◌}
use native.Mathlib.Nat.{pow-suc, mul_comm, mul_assoc, div-div-eq-div-mul}
use native.Mathlib.Omega.{arith}
use spscring.Base.Tests.{◌==◌, if◌then◌else◌}

-- A test on every number below a bound.
unfoldable pub all_below : ℕ → (ℕ → Bool) → Bool
all_below zero p = true
all_below (suc n) p = p n && all_below n p

pub all_below_sound : (n : ℕ) (p : ℕ → Bool) → all_below n p ≡ true → (x : ℕ) → x < n → p x ≡ true
unfolding all_below
all_below_sound zero p h x lt = absurd (omega arith)
all_below_sound (suc n) p h x lt = ground (arith, all_below_sound n p (ground arith) x)

-- The digit recursion behind both operations takes a fuel; any two that cover `a` agree.
digits-fuel :
    (z : ℕ → ℕ) (w : ℕ → ℕ → ℕ) (f g a b : ℕ) → a ≤ f → a ≤ g → digits z w f a b ≡ digits z w g a b
digits-fuel z w zero zero a b p q = refl
digits-fuel z w zero (suc g) zero b p q = refl
digits-fuel z w (suc f) zero zero b p q = refl
digits-fuel z w (suc f) (suc g) zero b p q = refl
digits-fuel z w zero g (suc a) b p q = absurd (omega arith)
digits-fuel z w (suc f) zero (suc a) b p q = absurd (omega arith)
digits-fuel z w (suc f) (suc g) (suc a) b p q =
    omega (arith, digits-fuel z w f g (suc a / 2) (b / 2) (omega arith) (omega arith))

bit_and-halve : (a b : ℕ) → bit_and a b ≡ 2 * bit_and (a / 2) (b / 2) + min (a % 2) (b % 2)
bit_and-halve zero b = omega (arith, bit_and-bitwise 0 b, bit_and-bitwise 0 (b / 2))
bit_and-halve (suc a) b = omega (
  arith,
  bit_and-bitwise (suc a) b,
  bit_and-bitwise (suc a / 2) (b / 2),
  digits-fuel (λ _. zero) min (suc a / 2) a (suc a / 2) (b / 2) (omega arith) (omega arith),
)

bit_or-halve : (a b : ℕ) → bit_or a b ≡ 2 * bit_or (a / 2) (b / 2) + max (a % 2) (b % 2)
bit_or-halve zero b = omega (arith, bit_or-bitwise 0 b, bit_or-bitwise 0 (b / 2))
bit_or-halve (suc a) b = omega (
  arith,
  bit_or-bitwise (suc a) b,
  bit_or-bitwise (suc a / 2) (b / 2),
  digits-fuel (λ c. c) max (suc a / 2) a (suc a / 2) (b / 2) (omega arith) (omega arith),
)

bit_and-zero : (f a : ℕ) → a ≤ f → bit_and a 0 ≡ 0
bit_and-zero f zero h = bit_and-bitwise 0 0
bit_and-zero zero (suc a) h = absurd (omega arith)
bit_and-zero (suc f) (suc a) h =
    omega (arith, bit_and-halve (suc a) 0, bit_and-zero f (suc a / 2) (omega arith))

bit_or-zero : (f a : ℕ) → a ≤ f → bit_or a 0 ≡ a
bit_or-zero f zero h = bit_or-bitwise 0 0
bit_or-zero zero (suc a) h = absurd (omega arith)
bit_or-zero (suc f) (suc a) h =
    omega (arith, bit_or-halve (suc a) 0, bit_or-zero f (suc a / 2) (omega arith))

mod-double : (x m : ℕ) → 0 < m → x % (m * 2) ≡ 2 * (x / 2 % m) + x % 2
mod-double x m h = grind arith

pow-pos : (n : ℕ) → 0 < 2 ^ n
pow-pos zero = omega arith
pow-pos (suc n) = omega (arith, pow-suc 2 n, pow-pos n)

-- One digit more in each kind of mask.
bit_and-ones : (x m : ℕ) → 0 < m → bit_and x (m * 2 - 1) ≡ 2 * bit_and (x / 2) (m - 1) + x % 2
bit_and-ones x m h = omega (arith, bit_and-halve x (m * 2 - 1), ap (bit_and (x / 2)) (the_half))
  where
    the_half : (m * 2 - 1) / 2 ≡ m - 1
    the_half = omega arith

bit_and-even : (x m : ℕ) → bit_and x (m * 2) ≡ 2 * bit_and (x / 2) m
bit_and-even x m = omega (arith, bit_and-halve x (m * 2), ap (bit_and (x / 2)) the_half)
  where
    the_half : m * 2 / 2 ≡ m
    the_half = omega arith

bit_or-even : (x m : ℕ) → bit_or x (m * 2) ≡ 2 * bit_or (x / 2) m + x % 2
bit_or-even x m = omega (arith, bit_or-halve x (m * 2), ap (bit_or (x / 2)) the_half)
  where
    the_half : m * 2 / 2 ≡ m
    the_half = omega arith

-- n low ones keep n binary digits.
pub bit_and_mask : (n x : ℕ) → bit_and x (2 ^ n - 1) ≡ x % 2 ^ n
bit_and_mask zero x = omega (arith, bit_and-zero x x (omega arith))
bit_and_mask (suc n) x = rw pow-suc (
    omega (
      arith,
      bit_and-ones x (2 ^ n) (pow-pos n),
      bit_and_mask n (x / 2),
      mod-double x (2 ^ n) (pow-pos n),
    ))

div-double : (x m : ℕ) → x / (m * 2) ≡ x / 2 / m
div-double x m = rw (div-div-eq-div-mul, mul_comm)

-- n ones above k zeros keep n digits from the k-th on.
pub bit_and_high_bits : (n k x : ℕ) → bit_and x ((2 ^ n - 1) * 2 ^ k) ≡ (x / 2 ^ k % 2 ^ n) * 2 ^ k
bit_and_high_bits n zero x =
    omega (arith, bit_and_mask n x, ap (bit_and x) plain, ap (λ (t : ℕ). t % 2 ^ n) whole)
  where
    plain : (2 ^ n - 1) * 2 ^ 0 ≡ 2 ^ n - 1
    plain = omega arith

    whole : x / 2 ^ 0 ≡ x
    whole = omega arith
bit_and_high_bits n (suc k) x =
    rw (pow-suc, ← mul_assoc, bit_and-even, bit_and_high_bits n k (x / 2), div-double) (omega arith)

-- One bit above the k low ones.
pub bit_or_bit : (k x : ℕ) → bit_or x (2 ^ k) ≡ (if x / 2 ^ k % 2 == 0 then x + 2 ^ k else x)
bit_or_bit zero x = ground (arith, bit_or-halve x 1, bit_or-zero (x / 2) (x / 2) (omega arith))
bit_or_bit (suc k) x = rw (pow-suc, bit_or-even, bit_or_bit k (x / 2), div-double) (ground arith)
