-- ===== src/Wait/Poll.antt =====
-- What the portable atomic_poll of include/spscring/atomic_wait.hpp does between its loads.
use spscring.Base.{
  ℕ, ◌%◌, ◌^◌, ◌<◌, ◌≡◌, ◌↔◌, Bool, Option, none, some, ltb, ◌==◌, if◌then◌else◌, sub32, u32_mod,
  arith,
}

-- The exponent of the pauses in a round, by the round's 32-bit number.
unfoldable poll_exponent : ℕ → ℕ
poll_exponent iteration = if ltb iteration 9 then sub32 iteration 1 else 8

-- The bound of the loop of pauses: `none` where the shift 1u << exp is undefined.
unfoldable poll_pauses : ℕ → Option ℕ
unfolding poll_exponent
poll_pauses iteration =
    let exp = poll_exponent iteration in if ltb exp 32 then some (2 ^ exp) else none

unfoldable poll_yields : ℕ → Bool
poll_yields iteration = iteration % 32 == 0

-- The bound of the pauses is undefined exactly in round number 0, to which the 32-bit number comes
-- back after 2^32 rounds.
poll_pauses_iff :
    (iteration : ℕ) → iteration < u32_mod → (poll_pauses iteration ≡ none) ↔ (iteration ≡ 0)
unfolding poll_pauses
poll_pauses_iff iteration fits = ground arith
