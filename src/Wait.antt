-- ===== src/Wait.antt =====
-- include/spscring/atomic_wait.hpp, internal/atomic_wait_futex.hpp, internal/atomic_wait_darwin.hpp
-- and internal/atomic_wait_win32.hpp: waiting for a word to change, with and without a timeout.
-- What other threads, the clock and the kernel do is a `Scene`.
pub mod Deadline
pub mod Tuning
pub mod Windows
pub mod Platforms
pub mod Loops
pub mod Answers
pub mod Polling
pub mod Primitives
pub mod Poll
mod Tests
use spscring.Base.{
  ℕ, zero, suc, ◌+◌, ◌-◌, ◌*◌, ◌/◌, ◌%◌, Bool, true, false, not, ◌&&◌, Option, none, some, ltb, leb,
  ◌==◌, if◌then◌else◌, add32,
}

-- At instant i: what a load of the word gives, what the clock reads in nanoseconds, and whether a
-- blocking call that starts then reports that it has timed out.
pub record Scene : Type 0 where
  pub word : ℕ → ℕ
  pub now : ℕ → ℕ
  pub expired : ℕ → Bool

-- An `int` of milliseconds: every negative one means to wait for good.
pub data Timeout : Type 0 where
  indefinite : Timeout
  millis : ℕ → Timeout

-- atomic_poll, on fuel: the load that has found another value.
unfoldable pub atomic_poll : Scene → ℕ → ℕ → ℕ → Option ℕ
atomic_poll e old zero i = none
atomic_poll e old (suc fuel) i =
    let rest = atomic_poll e old fuel (i + 1) in if e.word i == old then rest else some i

-- The portable atomic_wait_for with a deadline, on fuel for each loop. The clock is read once a
-- round. A load takes an instant, and a reading of the clock follows it within that instant.
unfoldable pub poll_until : Scene → ℕ → ℕ → ℕ → ℕ → ℕ → Option Bool
unfolding atomic_poll
poll_until e old deadline zero poll_fuel i = none
poll_until e old deadline (suc fuel) poll_fuel i =
    if e.word i == old
    then (if leb deadline (e.now i)
        then some false
        else elim (atomic_poll e old poll_fuel (i + 1)) [
          | none ↦ none
          | some j ↦ poll_until e old deadline fuel poll_fuel (j + 1)
        ])
    else some true

unfoldable pub atomic_wait_for : Scene → ℕ → Timeout → ℕ → ℕ → Option Bool
unfolding atomic_poll poll_until
atomic_wait_for e old indefinite fuel poll_fuel = elim (atomic_poll e old poll_fuel 0) [
  | none ↦ none
  | some i ↦ some true
]
atomic_wait_for e old (millis ms) fuel poll_fuel =
    poll_until e old (e.now 0 + ms * 1000000) fuel poll_fuel 1

-- The loop of the platforms' atomic_wait, on fuel: each round blocks in a call that may return at
-- any time. The result is the load that has found another value.
unfoldable pub atomic_wait : Scene → ℕ → ℕ → ℕ → Option ℕ
atomic_wait e old zero i = none
atomic_wait e old (suc fuel) i =
    let rest = atomic_wait e old fuel (i + 1) in if e.word i == old then rest else some i

-- The timespec of the futex variant: tv_sec and tv_nsec.
unfoldable pub timespec : ℕ → ℕ × ℕ
timespec ms = (ms / 1000, ms % 1000 * 1000000)

unfoldable pub futex_wait_for : Scene → ℕ → Timeout → Bool
futex_wait_for e old indefinite = true
futex_wait_for e old (millis ms) = if e.word 0 == old then not (e.expired 0) else true

-- The Darwin loop over os_sync_wait_on_address_with_timeout.
unfoldable pub os_sync_until : Scene → ℕ → ℕ → ℕ → ℕ → Option Bool
os_sync_until e old deadline zero i = none
os_sync_until e old deadline (suc fuel) i =
    let rest = os_sync_until e old deadline fuel (i + 1) in
    if not (e.word i == old)
    then some true
    else if leb deadline (e.now i)
    then some false
    else if e.expired i
    then some false
    else rest

-- The Darwin loop over slices of __ulock_wait: what is left is cut to whole milliseconds.
unfoldable pub ulock_until : Scene → ℕ → ℕ → ℕ → ℕ → Option Bool
ulock_until e old deadline zero i = none
ulock_until e old deadline (suc fuel) i =
    let rest = ulock_until e old deadline fuel (i + 1) in
    if not (e.word i == old)
    then some true
    else if (deadline - e.now i) / 1000000 == 0
    then some false
    else rest

-- The Windows loop over WaitOnAddress.
unfoldable pub wait_on_address_until : Scene → ℕ → Bool → ℕ → ℕ → Option Bool
wait_on_address_until e old forever zero i = none
wait_on_address_until e old forever (suc fuel) i =
    let rest = wait_on_address_until e old forever fuel (i + 1) in
    if e.word i == old
    then (if e.expired i && not forever then some (not (e.word (i + 1) == old)) else rest)
    else some true
