-- ===== src/Wait/Windows.antt =====
-- internal/atomic_wait_win32.hpp: the environment, the functions that kernel32.dll and KernelBase.dll
-- may have, the polling fallback and the timed wait. What GetEnvironmentVariableW, wcstoul and
-- GetProcAddress answer, and what GetTickCount reads at each instant, are parameters.
use spscring.Base.{
  ℕ, zero, suc, ◌+◌, ◌^◌, Bool, true, false, not, ◌&&◌, ◌||◌, List, [], ◌∷◌, Option, none, some,
  ltb, leb, ◌==◌, if◌then◌else◌, add32, sub32, u32,
}
use spscring.Wait.{Scene, Timeout, indefinite, millis, wait_on_address_until}
use spscring.Wait.Tuning.{WaitTuning, load_wait_tuning}

pub data Variable : Type 0 where
  wait_spin : Variable
  wait_yield : Variable
  wait_timeout_ms : Variable
  poll_sleep_ms : Variable

-- `get_variable` gives the length that GetEnvironmentVariableW returns for a buffer of 32 wide
-- characters, and the buffer; `wcstoul` the number in base 10, and the index of its end pointer.
unfoldable pub try_read_env_u32 : (Variable → ℕ × (ℕ → ℕ)) → ((ℕ → ℕ) → ℕ × ℕ) → Variable → Option ℕ
try_read_env_u32 get_variable wcstoul name =
    let (len, buf) = get_variable name in
    let (parsed, end) = wcstoul buf in
    if len == 0 || leb 32 len
    then none
    else if end == 0 || not (buf end == 0)
    then none
    else some (u32 parsed)

unfoldable pub native_wait_tuning : (Variable → ℕ × (ℕ → ℕ)) → ((ℕ → ℕ) → ℕ × ℕ) → WaitTuning
unfolding try_read_env_u32 load_wait_tuning
native_wait_tuning get_variable wcstoul =
    load_wait_tuning (try_read_env_u32 get_variable wcstoul wait_spin)
      (try_read_env_u32 get_variable wcstoul wait_yield)
      (try_read_env_u32 get_variable wcstoul wait_timeout_ms)
      (try_read_env_u32 get_variable wcstoul poll_sleep_ms)

-- The functions by their addresses; `none` is nullptr.
pub record WaitApi : Type 0 where
  pub wait_on_address : Option ℕ
  pub wake_one : Option ℕ
  pub wake_all : Option ℕ

-- What GetProcAddress finds in a module.
pub data Proc : Type 0 where
  wait_on_address : Proc
  wake_by_address_single : Proc
  wake_by_address_all : Proc

abbrev pub or_else : Option ℕ → Option ℕ → Option ℕ
or_else (some f) _ = some f
or_else none g = g

-- One round of the loop over the modules; `none` is a module that is not loaded.
unfoldable pub take_from : Option (Proc → Option ℕ) → WaitApi → WaitApi
take_from none api = api
take_from (some get_proc) api = record {
  wait_on_address = or_else api.wait_on_address (get_proc Proc.wait_on_address);
  wake_one = or_else api.wake_one (get_proc wake_by_address_single);
  wake_all = or_else api.wake_all (get_proc wake_by_address_all);
}

unfoldable pub load_wait_api : Option (Proc → Option ℕ) → Option (Proc → Option ℕ) → WaitApi
unfolding take_from
load_wait_api kernel32 kernel_base =
    take_from kernel_base
      (take_from kernel32 (record { wait_on_address = none; wake_one = none; wake_all = none }))

abbrev pub is_some : Option ℕ → Bool
is_some none = false
is_some (some _) = true

unfoldable pub has_native_wait_api : WaitApi → Bool
has_native_wait_api api =
    is_some api.wait_on_address && is_some api.wake_one && is_some api.wake_all

pub data PollAction : Type 0 where
  pauses : ℕ → PollAction
  switch_to_thread : PollAction
  sleep : ℕ → PollAction

unfoldable pub polling_action : WaitTuning → ℕ → PollAction
polling_action tuning iteration =
    let exp = if ltb 8 (sub32 iteration 1) then 8 else sub32 iteration 1 in
    if leb iteration tuning.spin_count
    then pauses (2 ^ exp)
    else if leb iteration (add32 tuning.spin_count tuning.yield_count)
    then switch_to_thread
    else sleep tuning.polling_sleep_ms

-- polling_wait after `iteration` rounds, on fuel: the load that has found another value, and what
-- has been done between the loads.
unfoldable pub polling_wait : WaitTuning → Scene → ℕ → ℕ → ℕ → ℕ → Option (ℕ × List PollAction)
unfolding polling_action
polling_wait tuning e old zero iteration i = none
polling_wait tuning e old (suc fuel) iteration i =
    let rest = polling_wait tuning e old fuel (add32 iteration 1) (i + 1) in
    if e.word i == old
    then elim rest as (λ _. Option (ℕ × List PollAction)) [
      | none ↦ none
      | some r ↦ some (r.0, polling_action tuning (add32 iteration 1) ∷ r.1)
    ]
    else some (i, [])

-- static_cast<int>(elapsed) >= timeout_ms, for a timeout that is not negative.
unfoldable pub has_elapsed : Timeout → ℕ → Bool
has_elapsed indefinite elapsed = false
has_elapsed (millis ms) elapsed = ltb elapsed 0x80000000 && leb ms elapsed

-- The timed wait without WaitOnAddress, on fuel for its loop and for polling_wait.
unfoldable pub poll_until_ticks :
    WaitTuning → Scene → (ℕ → ℕ) → ℕ → ℕ → Timeout → ℕ → ℕ → ℕ → Option Bool
unfolding polling_wait has_elapsed
poll_until_ticks tuning e ticks old start timeout zero poll_fuel i = none
poll_until_ticks tuning e ticks old start timeout (suc fuel) poll_fuel i =
    if e.word i == old
    then (if has_elapsed timeout (sub32 (ticks i) start)
        then some false
        else elim (polling_wait tuning e old poll_fuel 0 (i + 1)) [
          | none ↦ none
          | some r ↦ poll_until_ticks tuning e ticks old start timeout fuel poll_fuel (r.0 + 1)
        ])
    else some true

abbrev pub is_indefinite : Timeout → Bool
is_indefinite indefinite = true
is_indefinite (millis _) = false

unfoldable pub windows_wait_for :
    WaitApi → WaitTuning → Scene → (ℕ → ℕ) → ℕ → Timeout → ℕ → ℕ → Option Bool
unfolding has_native_wait_api poll_until_ticks wait_on_address_until
windows_wait_for api tuning e ticks old timeout fuel poll_fuel =
    if has_native_wait_api api
    then wait_on_address_until e old (is_indefinite timeout) fuel 0
    else poll_until_ticks tuning e ticks old (ticks 0) timeout fuel poll_fuel 1
