-- ===== src/View/Usage.antt =====
-- The fill level that a view reports, also from fronts that were loaded at different times.
use spscring.Base.{ℕ, ◌+◌, ◌-◌, ◌≤◌, ◌<◌, ◌≡◌, u64_mod, arith}
use spscring.View.{Segment, used_bytes, available_bytes, fill_ratio}

-- A fraction, not worked out.
abbrev pub fraction : ℕ → ℕ → ℕ × ℕ
fraction a b = (a, b)

-- `used_bytes` never exceeds the capacity and makes it up together with `available_bytes`, whatever
-- the fronts are; on fronts in order and within a round it is their distance. fill_ratio, taken
-- as a fraction, has no 0 below, and it lies between 0 and 1.
pub fill_level :
    (s : Segment)
    → s.data_capacity < u64_mod
    → s.write_pos < u64_mod
    → (used_bytes s ≤ s.data_capacity)
      × (used_bytes s + available_bytes s ≡ s.data_capacity)
      × (s.read_pos ≤ s.write_pos
          → s.write_pos ≤ s.read_pos + s.data_capacity
          → used_bytes s ≡ s.write_pos - s.read_pos)
      × (0 < (fill_ratio (0, 1) fraction s).1)
      × ((fill_ratio (0, 1) fraction s).0 ≤ (fill_ratio (0, 1) fraction s).1)
unfolding available_bytes fill_ratio
fill_level s c w = ground arith
