-- ===== src/Wait/Tuning.antt =====
-- internal/atomic_wait_win32.hpp: the tuning variables of the environment, and their limits.
use spscring.Base.{ℕ, ◌≤◌, ltb, if◌then◌else◌, Option, none, some, arith}

pub record WaitTuning : Type 0 where
  pub spin_count : ℕ
  pub yield_count : ℕ
  pub wait_timeout_ms : ℕ
  pub polling_sleep_ms : ℕ

unfoldable pub clamp_u32 : ℕ → ℕ → ℕ → ℕ
clamp_u32 value min_value max_value =
    if ltb value min_value then min_value else if ltb max_value value then max_value else value

-- A variable as try_read_env_u32 has read it, or the default.
unfoldable pub tuned : Option ℕ → ℕ → ℕ → ℕ
unfolding clamp_u32
tuned none max_value default_value = default_value
tuned (some value) max_value default_value = clamp_u32 value 0 max_value

unfoldable pub load_wait_tuning : Option ℕ → Option ℕ → Option ℕ → Option ℕ → WaitTuning
unfolding tuned
load_wait_tuning spin yield_ timeout sleep = record {
  spin_count = tuned spin 1000000 1000;
  yield_count = tuned yield_ 100000 10;
  wait_timeout_ms = tuned timeout 60000 1;
  polling_sleep_ms = tuned sleep 60000 1;
}

tuned-le :
    (o : Option ℕ) (max_value default_value : ℕ)
    → default_value ≤ max_value
    → tuned o max_value default_value ≤ max_value
unfolding tuned clamp_u32
tuned-le none m d h = h
tuned-le (some v) m d h = ground arith

-- Whatever the environment holds, the tuning stays within its limits.
load_wait_tuning-bounds :
    (spin yield_ timeout sleep : Option ℕ)
    → let t = load_wait_tuning spin yield_ timeout sleep in
      (t.spin_count ≤ 1000000)
      × (t.yield_count ≤ 100000)
      × (t.wait_timeout_ms ≤ 60000)
      × (t.polling_sleep_ms ≤ 60000)
unfolding load_wait_tuning
load_wait_tuning-bounds spin yield_ timeout sleep = (
  tuned-le spin 1000000 1000 (omega arith),
  tuned-le yield_ 100000 10 (omega arith),
  tuned-le timeout 60000 1 (omega arith),
  tuned-le sleep 60000 1 (omega arith),
)
