-- ===== src/Positions.antt =====
-- Positions that are multiples of the slot size, and their indices modulo the capacity.
use spscring.Base.{
  ℕ, ◌+◌, ◌%◌, ◌≤◌, ◌<◌, ◌≡◌, ◌≢◌, ◌⊎◌, inl, inr, ◌↔◌, ◌∙◌, arith, ◌-◌, ◌*◌, ◌/◌, suc,
}
use native.Mathlib.Nat.{
  mod-mod_of_dvd, dvd_of_mod-eq-zero, add-mod_right, add-mod, zero-mod, mod-add-mod, mul-div_cancel,
}
use mathlib.Core.Path.{◌≡⟨◌⟩◌, ◌∎}
use spscring.Base.{ap, sym}
use native.Mathlib.Decide.{dec_lt}

pub gap-of-multiples : (m a b : ℕ) → a % m ≡ 0 → b % m ≡ 0 → a < b → a + m ≤ b
gap-of-multiples m a b ha hb h = grind arith

pub add-IsMultiple : (m a : ℕ) → a % m ≡ 0 → (a + m) % m ≡ 0
add-IsMultiple m a h = add-mod_right a m ∙ h

pub add-IsMultiple-of : (m a b : ℕ) → a % m ≡ 0 → b % m ≡ 0 → (a + b) % m ≡ 0
add-IsMultiple-of m a b h k = rw (add-mod, h, k) (zero-mod m)

pub sub-IsMultiple : (m a b : ℕ) → a % m ≡ 0 → b % m ≡ 0 → a ≤ b → (b - a) % m ≡ 0
sub-IsMultiple m a b h k le =
    (b - a) % m
    ≡⟨ ap (λ t. t % m) (omega arith) ⟩ (0 + (b - a)) % m
    ≡⟨ ap (λ t. (t + (b - a)) % m) (sym h) ⟩ (a % m + (b - a)) % m
    ≡⟨ mod-add-mod a m (b - a) ⟩ (a + (b - a)) % m
    ≡⟨ ap (λ t. t % m) (omega arith) ⟩ b % m
    ≡⟨ k ⟩ 0 ∎

-- The i-th slot of n ends within them.
pub slot-before : (i n m : ℕ) → i < n → i * m + m ≤ n * m
slot-before i n m h = grind arith

pub div-eq-suc : (a n m : ℕ) → 0 < m → a ≡ n * m + m → a / m ≡ suc n
div-eq-suc a n m pos e = grind arith

pub suc_of_slots : (n k m : ℕ) → 0 < m → n * m ≡ k * m + m → n ≡ suc k
suc_of_slots n k m pos e = sym (mul-div_cancel n pos) ∙ div-eq-suc (n * m) k m pos e

-- Counts of slots compare as the positions that they span.
pub count_iff :
    (n k m write read capacity : ℕ)
    → 0 < m
    → write ≡ read + n * m
    → capacity ≡ k * m
    → (n ≡ k) ↔ (write ≡ read + capacity)
count_iff n k m write read capacity pos a b = grind arith

-- Two positions less than a round apart have different indices.
pub mod-ne : (capacity a b : ℕ) → a < b → b < a + capacity → a % capacity ≢ b % capacity
mod-ne capacity a b h k = grind arith

-- The full test compares the indices of two fronts at most a round apart.
pub mod-eq_iff :
    (capacity a b : ℕ)
    → 0 < capacity
    → a < b
    → b ≤ a + capacity
    → (b % capacity ≡ a % capacity) ↔ (b ≡ a + capacity)
mod-eq_iff capacity a b pos h k = grind arith

module _ (m capacity : ℕ) (pos : 0 < capacity) (whole : capacity % m ≡ 0) where
  pub mod-IsMultiple : (a : ℕ) → a % m ≡ 0 → a % capacity % m ≡ 0
  mod-IsMultiple a h = mod-mod_of_dvd m a (dvd_of_mod-eq-zero m whole) ∙ h

  -- A slot does not run over the end of the data region.
  pub slot-fits : (a : ℕ) → a % m ≡ 0 → a % capacity + m ≤ capacity
  slot-fits a h =
      gap-of-multiples m (a % capacity) capacity (mod-IsMultiple a h) whole (omega arith)

  -- Slots at different positions of one round do not overlap.
  pub slots-apart :
      (a b : ℕ)
      → a % m ≡ 0
      → b % m ≡ 0
      → a < b
      → b < a + capacity
      → (a % capacity + m ≤ b % capacity) ⊎ (b % capacity + m ≤ a % capacity)
  slots-apart a b ha hb h k =
      let ia = mod-IsMultiple a ha in
      let ib = mod-IsMultiple b hb in
      elim (dec_lt (a % capacity) (b % capacity)) [
        | yes p ↦ inl (gap-of-multiples m (a % capacity) (b % capacity) ia ib p)
        | no p ↦ inr (
            gap-of-multiples m (b % capacity) (a % capacity) ib ia
              (omega (arith, mod-ne capacity a b h k)))
      ]
