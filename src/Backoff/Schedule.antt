-- ===== src/Backoff/Schedule.antt =====
-- Which pause does what.
use spscring.Base.{ℕ, zero, suc, ◌+◌, ◌^◌, ◌≤◌, ◌<◌, ◌≡◌, ltb, if◌then◌else◌, u32_mod, arith}
use spscring.Backoff.{AtomicBackoff, cpu_pauses, thread_yield, pause_action, pause, reset, pauses}

pauses-count :
    (n : ℕ) (b : AtomicBackoff)
    → b.pause_count + n < u32_mod
    → (pauses n b).pause_count ≡ b.pause_count + n
unfolding pauses
pauses-count zero b h = omega arith
pauses-count (suc n) b h =
    let e : (pause b).1.pause_count ≡ b.pause_count + 1 = omega arith in
    omega (arith, pauses-count n (pause b).1 (omega (arith, e)), e)

pause_action-rising : (n : ℕ) → n ≤ 8 → pause_action n ≡ cpu_pauses (2 ^ n)
unfolding pause_action
pause_action-rising n h =
    let exp : (if ltb n 8 then n else 8) ≡ n = ground arith in rw exp (ground arith)

pause_action-capped : (n : ℕ) → 8 ≤ n → n < 16 → pause_action n ≡ cpu_pauses 256
unfolding pause_action
pause_action-capped n h k =
    let exp : (if ltb n 8 then n else 8) ≡ 8 = ground arith in rw exp (ground arith)

pause_action-yielding : (n : ℕ) → 16 ≤ n → pause_action n ≡ thread_yield
unfolding pause_action
pause_action-yielding n h = ground arith

-- From a reset on, pause number n hints 2^n times up to n = 8 and 256 times up to n = 15, and every
-- later one yields, for the first 2^32 pauses.
pause-Schedule :
    (n : ℕ) (b : AtomicBackoff)
    → n < u32_mod
    → ((n ≤ 8 → (pause (pauses n (reset b))).0 ≡ cpu_pauses (2 ^ n))
        × (8 ≤ n → n < 16 → (pause (pauses n (reset b))).0 ≡ cpu_pauses 256)
        × (16 ≤ n → (pause (pauses n (reset b))).0 ≡ thread_yield))
unfolding pause reset
pause-Schedule n b h =
    let e : (pauses n (reset b)).pause_count ≡ n =
      omega (arith, pauses-count n (reset b) (omega (arith, h))) in
    rw e (pause_action-rising n, pause_action-capped n, pause_action-yielding n)
