-- ===== src/Wait/Platforms.antt =====
-- atomic_wait.hpp and the headers under internal/ that it chooses from: which primitive each
-- platform waits with and wakes with, and the timed wait on each.
use spscring.Base.{ℕ, Bool, true, false, not, ◌==◌, Option, none, some, if◌then◌else◌, ◌+◌, ◌*◌}
use spscring.Wait.{
  Scene, Timeout, indefinite, millis, atomic_wait, atomic_wait_for, futex_wait_for, os_sync_until,
  ulock_until, timespec,
}
use spscring.Wait.Tuning.{WaitTuning}
use spscring.Wait.Windows.{WaitApi, has_native_wait_api, windows_wait_for}

-- What a Darwin build may use: os_sync, os_sync where the system has it, or __ulock alone.
pub data Tier : Type 0 where
  tier1 : Tier
  tier1_runtime : Tier
  tier2 : Tier

pub data Platform : Type 0 where
  linux : Platform
  windows : WaitApi → WaitTuning → Platform
  apple : (tier : Tier) (available : Bool) → Platform
  elsewhere : Platform

unfoldable pub has_os_sync : Tier → Bool → Bool
has_os_sync tier1 available = true
has_os_sync tier1_runtime available = available
has_os_sync tier2 available = false

-- The calls into the system.
pub data Call : Type 0 where
  futex_wait : Option (ℕ × ℕ) → Call
  futex_wake : ℕ → Call
  os_sync_wait : Call
  os_sync_wait_with_timeout : ℕ → Call
  os_sync_wake_any : Call
  os_sync_wake_all : Call
  ulock_wait : (operation timeout_us : ℕ) → Call
  ulock_wake : (operation : ℕ) → Call
  wait_on_address : Option ℕ → Call
  wake_by_address_single : Call
  wake_by_address_all : Call

abbrev pub ulock_wait_op : ℕ
ulock_wait_op = 0x00000001

abbrev pub ulock_wake_op : ℕ
ulock_wake_op = 0x00000001

abbrev pub ulock_wake_all_op : ℕ
ulock_wake_all_op = 0x00000101

abbrev pub ulock_timeout_us : ℕ
ulock_timeout_us = 50000

-- What a round of atomic_wait blocks in, by platform; `none` polls.
unfoldable pub futex_wait_call : Option Call
futex_wait_call = some (futex_wait none)

unfoldable pub windows_wait_call : WaitApi → WaitTuning → Option Call
unfolding has_native_wait_api
windows_wait_call api tuning =
    if has_native_wait_api api then some (wait_on_address (some tuning.wait_timeout_ms)) else none

unfoldable pub darwin_wait_call : Tier → Bool → Option Call
unfolding has_os_sync
darwin_wait_call tier available =
    if has_os_sync tier available
    then some os_sync_wait
    else some (ulock_wait ulock_wait_op ulock_timeout_us)

unfoldable pub wait_call : Platform → Option Call
unfolding futex_wait_call windows_wait_call darwin_wait_call
wait_call linux = futex_wait_call
wait_call (windows api tuning) = windows_wait_call api tuning
wait_call (apple tier available) = darwin_wait_call tier available
wait_call elsewhere = none

-- What a round of atomic_wait_for blocks in, with so many nanoseconds left to the deadline.
unfoldable pub futex_wait_for_call : Timeout → Option Call
unfolding timespec
futex_wait_for_call indefinite = some (futex_wait none)
futex_wait_for_call (millis ms) = some (futex_wait (some (timespec ms)))

abbrev pub wait_ms : Timeout → Option ℕ
wait_ms indefinite = none
wait_ms (millis ms) = some ms

unfoldable pub windows_wait_for_call : WaitApi → Timeout → Option Call
unfolding has_native_wait_api
windows_wait_for_call api timeout =
    if has_native_wait_api api then some (wait_on_address (wait_ms timeout)) else none

unfoldable pub darwin_wait_for_call : Tier → Bool → Timeout → ℕ → Option Call
unfolding has_os_sync darwin_wait_call
darwin_wait_for_call tier available indefinite remaining_ns = darwin_wait_call tier available
darwin_wait_for_call tier available (millis ms) remaining_ns =
    if has_os_sync tier available
    then some (os_sync_wait_with_timeout remaining_ns)
    else some (ulock_wait ulock_wait_op ulock_timeout_us)

unfoldable pub wait_for_call : Platform → Timeout → ℕ → Option Call
unfolding futex_wait_for_call windows_wait_for_call darwin_wait_for_call
wait_for_call linux timeout remaining_ns = futex_wait_for_call timeout
wait_for_call (windows api tuning) timeout remaining_ns = windows_wait_for_call api timeout
wait_for_call (apple tier available) timeout remaining_ns =
    darwin_wait_for_call tier available timeout remaining_ns
wait_for_call elsewhere timeout remaining_ns = none

unfoldable pub futex_notify_one_call : Option Call
futex_notify_one_call = some (futex_wake 1)

unfoldable pub windows_notify_one_call : WaitApi → Option Call
unfolding has_native_wait_api
windows_notify_one_call api = if has_native_wait_api api then some wake_by_address_single else none

unfoldable pub darwin_notify_one_call : Tier → Bool → Option Call
unfolding has_os_sync
darwin_notify_one_call tier available =
    if has_os_sync tier available then some os_sync_wake_any else some (ulock_wake ulock_wake_op)

unfoldable pub notify_one_call : Platform → Option Call
unfolding futex_notify_one_call windows_notify_one_call darwin_notify_one_call
notify_one_call linux = futex_notify_one_call
notify_one_call (windows api tuning) = windows_notify_one_call api
notify_one_call (apple tier available) = darwin_notify_one_call tier available
notify_one_call elsewhere = none

unfoldable pub futex_notify_all_call : Option Call
futex_notify_all_call = some (futex_wake 0x7FFFFFFF)

unfoldable pub windows_notify_all_call : WaitApi → Option Call
unfolding has_native_wait_api
windows_notify_all_call api = if has_native_wait_api api then some wake_by_address_all else none

unfoldable pub darwin_notify_all_call : Tier → Bool → Option Call
unfolding has_os_sync
darwin_notify_all_call tier available =
    if has_os_sync tier available
    then some os_sync_wake_all
    else some (ulock_wake ulock_wake_all_op)

unfoldable pub notify_all_call : Platform → Option Call
unfolding futex_notify_all_call windows_notify_all_call darwin_notify_all_call
notify_all_call linux = futex_notify_all_call
notify_all_call (windows api tuning) = windows_notify_all_call api
notify_all_call (apple tier available) = darwin_notify_all_call tier available
notify_all_call elsewhere = none

-- The result of atomic_notify_all_if_waiters: without a primitive whether the word is not zero.
unfoldable pub notify_all_if_waiters : Platform → ℕ → Bool
notify_all_if_waiters linux word = true
notify_all_if_waiters (windows _ _) word = true
notify_all_if_waiters (apple _ _) word = true
notify_all_if_waiters elsewhere word = not (word == 0)

-- The Darwin timed wait, on fuel.
unfoldable pub darwin_wait_for : Tier → Bool → Scene → ℕ → Timeout → ℕ → Option Bool
unfolding has_os_sync os_sync_until ulock_until atomic_wait
darwin_wait_for tier available e old indefinite fuel = elim (atomic_wait e old fuel 0) [
  | none ↦ none
  | some i ↦ some true
]
darwin_wait_for tier available e old (millis ms) fuel =
    let deadline = e.now 0 + ms * 1000000 in
    if has_os_sync tier available
    then os_sync_until e old deadline fuel 1
    else ulock_until e old deadline fuel 1

-- atomic_wait_for, on fuel for its loop and for the poll within it.
unfoldable pub wait_for : Platform → Scene → (ℕ → ℕ) → ℕ → Timeout → ℕ → ℕ → Option Bool
unfolding futex_wait_for windows_wait_for darwin_wait_for atomic_wait_for
wait_for linux e ticks old timeout fuel poll_fuel = some (futex_wait_for e old timeout)
wait_for (windows api tuning) e ticks old timeout fuel poll_fuel =
    windows_wait_for api tuning e ticks old timeout fuel poll_fuel
wait_for (apple tier available) e ticks old timeout fuel poll_fuel =
    darwin_wait_for tier available e old timeout fuel
wait_for elsewhere e ticks old timeout fuel poll_fuel = atomic_wait_for e old timeout fuel poll_fuel
