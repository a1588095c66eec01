-- ===== src/Wait/Tests.antt =====
-- The waits run in small scenes, and held against the properties.
use spscring.Base.{ℕ, true, ltb, if◌then◌else◌, ◌*◌, ◌≡◌, refl, false, none, some, arith}
use spscring.Wait.{Scene, millis, atomic_wait_for, ulock_until}
use spscring.Wait.Windows.{WaitApi, has_native_wait_api}
use spscring.Wait.Platforms.{
  windows, apple, tier2, wait_for, wait_call, wait_for_call, notify_one_call, notify_all_call,
}
use spscring.Wait.Answers.{Verdict, wait_for-Verdict}
use spscring.Wait.Polling.{windows_wait_for-stuck}
use spscring.Wait.Primitives.{primitive_of, same_primitive}
use spscring.Wait.Tuning.{WaitTuning}
use spscring.Wait.Deadline.{atomic_wait_for-stuck}

-- The word stays 7; an instant takes 40 milliseconds.
abbrev unchanged : Scene
unchanged = record { word = λ _. 7; now = λ i. i * 40000000; expired = λ _. false }

times_out_at_100_ms : ulock_until unchanged 7 100000000 4 0 ≡ some false
unfolding ulock_until
times_out_at_100_ms = refl

atomic_wait_for-stuck_example : atomic_wait_for unchanged 7 (millis 100) 10 20 ≡ none
atomic_wait_for-stuck_example =
    atomic_wait_for-stuck unchanged 7 100 10 20 (λ _. refl) (omega arith)

-- The word is 8 from the third load on.
abbrev changing : Scene
changing = record unchanged { word = λ i. if ltb i 2 then 7 else 8 }

-- From the fourth load on the word is 8.
abbrev changed_at_3 : Scene
changed_at_3 = record {
  word = λ i. if ltb i 3 then 7 else 8;
  now = λ i. i * 40000000;
  expired = λ _. false;
}

abbrev no_functions : WaitApi
no_functions = record { wait_on_address = none; wake_one = none; wake_all = none }

abbrev default_tuning : WaitTuning
default_tuning = record {
  spin_count = 1000;
  yield_count = 10;
  wait_timeout_ms = 1;
  polling_sleep_ms = 1;
}

abbrev tick_counter : ℕ → ℕ
tick_counter i = i * 40

wait_for-Verdict_example :
    Verdict changed_at_3 7 4
      (millis 100)
      (wait_for (windows no_functions default_tuning) changed_at_3 tick_counter 7 (millis 100) 4 4)
wait_for-Verdict_example =
    wait_for-Verdict changed_at_3 7 4 (windows no_functions default_tuning) tick_counter
      (millis 100) 4 4 (λ e. cc) (omega arith) (omega arith) (omega arith) (omega arith)

windows_wait_for-stuck_example :
    wait_for (windows no_functions default_tuning) unchanged tick_counter 7 (millis 100) 10 20
    ≡ none
unfolding has_native_wait_api
windows_wait_for-stuck_example =
    windows_wait_for-stuck no_functions default_tuning unchanged tick_counter 7 100 10 20 refl
      (λ _. refl) (omega arith)

same_primitive_example :
    (primitive_of (wait_for_call (apple tier2 true) (millis 5) 5000000)
      ≡ primitive_of (wait_call (apple tier2 true)))
    × (primitive_of (notify_one_call (apple tier2 true))
        ≡ primitive_of (wait_call (apple tier2 true)))
    × (primitive_of (notify_all_call (apple tier2 true))
        ≡ primitive_of (wait_call (apple tier2 true)))
same_primitive_example = same_primitive (apple tier2 true) (millis 5) 5000000
