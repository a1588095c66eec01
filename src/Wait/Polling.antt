-- ===== src/Wait/Polling.antt =====
-- The polling fallback of Windows, and the functions that stand in its place.

use mathlib.Core.Path.{subst}
use spscring.Base.{
  ℕ, zero, suc, ◌+◌, ◌≤◌, ◌<◌, ◌≡◌, ◌≢◌, refl, sym, Bool, false, ◌&&◌, ◌||◌, List, [], ◌∷◌, Option,
  none, some, add32, sub32, u32_mod, arith,
}
use spscring.Wait.{Scene, millis}
use spscring.Wait.Tuning.{WaitTuning}
use spscring.Wait.Windows.{
  Proc, wake_by_address_single, wake_by_address_all, or_else, is_some, take_from, load_wait_api,
  WaitApi, has_native_wait_api, has_elapsed, PollAction, polling_action, polling_wait,
  poll_until_ticks, windows_wait_for,
}
use spscring.Wait.Platforms.{windows, wait_for}

-- What is done in n rounds behind the first `iteration`.
abbrev pub actions : WaitTuning → ℕ → ℕ → List PollAction
actions tuning iteration zero = []
actions tuning iteration (suc n) =
    polling_action tuning (iteration + 1) ∷ actions tuning (iteration + 1) n

-- If the loads before number i + n find the old value and that one another, then polling_wait ends
-- with that load, after one action for each of the n rounds, pauses, then SwitchToThread, then
-- Sleep by the number of the round, the first following `iteration`.
polling_wait-Schedule :
    (tuning : WaitTuning) (e : Scene) (old n fuel iteration i : ℕ)
    → ((j : ℕ) → i ≤ j → j < i + n → e.word j ≡ old)
    → e.word (i + n) ≢ old
    → n < fuel
    → iteration + n < u32_mod
    → polling_wait tuning e old fuel iteration i ≡ some (i + n, actions tuning iteration n)
unfolding polling_wait
polling_wait-Schedule tuning e old n zero k i same other enough room = absurd (omega arith)
polling_wait-Schedule tuning e old zero (suc fuel) k i same other enough room =
    let here : i + 0 ≡ i = omega arith in
    let other' : e.word i ≢ old = subst (λ k. e.word k ≢ old) here other in
    rw here (ground (arith, other'))
polling_wait-Schedule tuning e old (suc n) (suc fuel) k i same other enough room =
    let there : i + 1 + n ≡ i + suc n = omega arith in
    let next : add32 k 1 ≡ k + 1 = omega arith in
    let other' : e.word (i + 1 + n) ≢ old = subst (λ k. e.word k ≢ old) (sym there) other in
    let rest =
      polling_wait-Schedule tuning e old n fuel (k + 1) (i + 1)
        (λ j low high. same j (omega arith) (omega arith)) other' (omega arith) (omega arith) in
    rw next (ground (arith, same i (omega arith) (omega arith), rest, there))

polling_wait-stuck :
    (tuning : WaitTuning) (e : Scene) (old : ℕ)
    → ((i : ℕ) → e.word i ≡ old)
    → (fuel iteration i : ℕ) → polling_wait tuning e old fuel iteration i ≡ none
unfolding polling_wait
polling_wait-stuck tuning e old same zero k i = refl
polling_wait-stuck tuning e old same (suc fuel) k i =
    ground (arith, same i, polling_wait-stuck tuning e old same fuel (add32 k 1) (i + 1))

-- Where a function of WaitOnAddress is missing, the timed wait of Windows does not end while the
-- word stays, whatever the fuel, if the first reading of the tick counter in its loop is less than
-- the timeout after the start: polling_wait has no deadline.
pub windows_wait_for-stuck :
    (api : WaitApi) (tuning : WaitTuning) (e : Scene) (ticks : ℕ → ℕ) (old ms fuel poll_fuel : ℕ)
    → has_native_wait_api api ≡ false
    → ((i : ℕ) → e.word i ≡ old)
    → sub32 (ticks 1) (ticks 0) < ms
    → wait_for (windows api tuning) e ticks old (millis ms) fuel poll_fuel ≡ none
unfolding wait_for windows_wait_for poll_until_ticks has_elapsed
windows_wait_for-stuck api tuning e ticks old ms zero poll_fuel missing same early = rw missing refl
windows_wait_for-stuck api tuning e ticks old ms (suc fuel) poll_fuel missing same early =
    let stays = same 1 in
    rw (missing, polling_wait-stuck tuning e old same poll_fuel 0 2) (ground arith)

-- What GetProcAddress finds in a module that may not be loaded.
abbrev pub exported : Option (Proc → Option ℕ) → Proc → Bool
exported none f = false
exported (some get_proc) f = is_some (get_proc f)

is_some-or_else : (f g : Option ℕ) → is_some (or_else f g) ≡ (is_some f || is_some g)
is_some-or_else none g = refl
is_some-or_else (some f) g = refl

-- The native waits are used exactly if each of the three functions is found in one of the two
-- modules.
pub load_wait_api-has :
    (kernel32 kernel_base : Option (Proc → Option ℕ))
    → has_native_wait_api (load_wait_api kernel32 kernel_base)
      ≡ (exported kernel32 Proc.wait_on_address || exported kernel_base Proc.wait_on_address)
        && (exported kernel32 wake_by_address_single || exported kernel_base wake_by_address_single)
        && (exported kernel32 wake_by_address_all || exported kernel_base wake_by_address_all)
unfolding has_native_wait_api load_wait_api take_from
load_wait_api-has none none = refl
load_wait_api-has none (some g) = refl
load_wait_api-has (some f) none = ground arith
load_wait_api-has (some f) (some g) =
    rw
      (
        is_some-or_else (f Proc.wait_on_address) (g Proc.wait_on_address),
        is_some-or_else (f wake_by_address_single) (g wake_by_address_single),
        is_some-or_else (f wake_by_address_all) (g wake_by_address_all),
      )
      refl
