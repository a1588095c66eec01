-- ===== src/Backoff.antt =====
-- include/spscring/atomic_backoff.hpp: spinning for longer and longer, then yielding, or else the
-- timed wait on a word of Wait.
pub mod Schedule
mod Tests
use spscring.Wait.{Scene, Timeout}
use spscring.Wait.Platforms.{Platform, wait_for}
use spscring.Base.{Bool, Option, ℕ, zero, suc, ◌^◌, ltb, if◌then◌else◌, add32}

-- The fields of an `atomic_backoff`.
pub record AtomicBackoff : Type 0 where
  pub pause_count : ℕ
  pub max_pauses : ℕ

abbrev pub yield_threshold : ℕ
yield_threshold = 16

-- What a pause does: so many hints to the processor, or one yield.
pub data PauseAction : Type 0 where
  cpu_pauses : ℕ → PauseAction
  thread_yield : PauseAction

unfoldable pub pause_action : ℕ → PauseAction
pause_action pause_count =
    if ltb pause_count yield_threshold
    then cpu_pauses (2 ^ (if ltb pause_count 8 then pause_count else 8))
    else thread_yield

unfoldable pub pause : AtomicBackoff → PauseAction × AtomicBackoff
unfolding pause_action
pause b = (pause_action b.pause_count, record b { pause_count = add32 b.pause_count 1 })

unfoldable pub reset : AtomicBackoff → AtomicBackoff
reset b = record b { pause_count = 0 }

-- The object after n pauses.
unfoldable pub pauses : ℕ → AtomicBackoff → AtomicBackoff
unfolding pause
pauses zero b = b
pauses (suc n) b = pauses n (pause b).1

-- `wait`, with the fuel of the timed wait and of the poll within it; the object stays as it is.
unfoldable wait :
    AtomicBackoff → Platform → Scene → (ℕ → ℕ) → ℕ → Timeout → ℕ → ℕ → Option Bool × AtomicBackoff
wait b platform e ticks old timeout fuel poll_fuel =
    (wait_for platform e ticks old timeout fuel poll_fuel, b)
