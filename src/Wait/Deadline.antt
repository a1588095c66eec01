-- ===== src/Wait/Deadline.antt =====
-- Whether the waits with a timeout end, and with which answer.
use mathlib.Core.Path.{subst, sym}
use native.Mathlib.Decide.{dec_lt, ℕ_discrete}
use spscring.Base.{
  ◌∙◌, ap, sym, ℕ, zero, suc, ◌+◌, ◌*◌, ◌≤◌, ◌<◌, ◌≡◌, ◌≢◌, refl, Bool, true, false, Option, none,
  some, arith,
}
use spscring.Wait.{
  atomic_wait, Scene, millis, atomic_poll, poll_until, atomic_wait_for, ulock_until, timespec,
}

-- The ulock loop up to a load n at which the deadline has passed: it answers at some load i ≤ n,
-- true if that found another value, false within a millisecond of the deadline.
data Answer (e : Scene) (old deadline n : ℕ) : Option Bool → Type 0 where
  changed : (i : ℕ) → i ≤ n → e.word i ≢ old → Answer e old deadline n (some true)
  timed_out :
      (i : ℕ)
      → i ≤ n
      → e.word i ≡ old
      → deadline < e.now i + 1000000
      → Answer e old deadline n (some false)

before_deadline :
    (e : Scene) (deadline n i : ℕ) → deadline ≤ e.now n → i ≤ n → e.now i < deadline → i < n
before_deadline e deadline n i past le early = elim (ℕ_discrete i n) [
  | yes same ↦ absurd (omega (arith, ap (λ k. e.now k) same))
  | no other ↦ omega (arith, other)
]

-- From any load on the loop ends by the first load after the deadline.
ulock_until-from :
    (e : Scene) (old deadline n : ℕ)
    → deadline ≤ e.now n
    → (fuel i : ℕ) → i ≤ n
    → n < i + fuel
    → Answer e old deadline n (ulock_until e old deadline fuel i)
unfolding ulock_until
ulock_until-from e old deadline n past zero i le enough = absurd (omega arith)
ulock_until-from e old deadline n past (suc fuel) i le enough =
    let next = λ (lt : i < n).
      ulock_until-from e old deadline n past fuel (i + 1) (omega arith) (omega arith) in
    elim (ℕ_discrete (e.word i) old) [
      | no other ↦ subst (Answer e old deadline n) (ground (arith, other)) (changed i le other)
      | yes same ↦ elim (dec_lt deadline (e.now i + 1000000)) [
        | yes close ↦
            subst (Answer e old deadline n) (ground (arith, same)) (timed_out i le same close)
        | no early ↦
            let before : i < n = before_deadline e deadline n i past le (omega arith) in
            subst (Answer e old deadline n) (ground (arith, same)) (next before)
      ]
    ]

-- A poll that always finds the old value does not end.
atomic_poll-stuck :
    (e : Scene) (old : ℕ)
    → ((i : ℕ) → e.word i ≡ old)
    → (fuel i : ℕ) → atomic_poll e old fuel i ≡ none
unfolding atomic_poll
atomic_poll-stuck e old same zero i = refl
atomic_poll-stuck e old same (suc fuel) i =
    ground (arith, same i, atomic_poll-stuck e old same fuel (i + 1))

-- The portable timed wait does not end while the word stays, whatever the fuel, if the first
-- reading of the clock in its loop is before the deadline: its inner poll has no deadline.
pub atomic_wait_for-stuck :
    (e : Scene) (old ms fuel poll_fuel : ℕ)
    → ((i : ℕ) → e.word i ≡ old)
    → e.now 1 < e.now 0 + ms * 1000000
    → atomic_wait_for e old (millis ms) fuel poll_fuel ≡ none
unfolding atomic_wait_for poll_until
atomic_wait_for-stuck e old ms zero poll_fuel same early = refl
atomic_wait_for-stuck e old ms (suc fuel) poll_fuel same early =
    rw (atomic_poll-stuck e old same poll_fuel 2) (ground (arith, same 1))

-- The Darwin wait in ulock slices ends by the first instant n at which the deadline has passed, if
-- its first load comes no later, and so returns: true only if a load has found another value, false
-- only less than a millisecond before the deadline or after it.
ulock_until-Answer :
    (e : Scene) (old deadline n fuel : ℕ)
    → deadline ≤ e.now n
    → n < fuel
    → Answer e old deadline n (ulock_until e old deadline fuel 0)
ulock_until-Answer e old deadline n fuel past enough =
    ulock_until-from e old deadline n past fuel 0 (omega arith) (omega arith)

-- The timespec stands for as many nanoseconds as the timeout, and its tv_nsec is below a second.
pub timespec-exact :
    (ms : ℕ)
    → let (sec, nsec) = timespec ms in
      (sec * 1000000000 + nsec ≡ ms * 1000000) × (nsec < 1000000000)
unfolding timespec
timespec-exact ms = (omega arith, omega arith)

-- If the loads before number i + n find the old value and that one another, then atomic_wait ends
-- with that load, and not before.
pub atomic_wait-first :
    (e : Scene) (old n fuel i : ℕ)
    → ((j : ℕ) → i ≤ j → j < i + n → e.word j ≡ old)
    → e.word (i + n) ≢ old
    → n < fuel
    → atomic_wait e old fuel i ≡ some (i + n)
unfolding atomic_wait
atomic_wait-first e old n zero i same other enough = absurd (omega arith)
atomic_wait-first e old zero (suc fuel) i same other enough =
    let here : i + 0 ≡ i = omega arith in
    let other' : e.word i ≢ old = subst (λ k. e.word k ≢ old) here other in
    rw here (ground (arith, other'))
atomic_wait-first e old (suc n) (suc fuel) i same other enough =
    let there : i + 1 + n ≡ i + suc n = omega arith in
    let other' : e.word (i + 1 + n) ≢ old = subst (λ k. e.word k ≢ old) (sym there) other in
    let rest =
      atomic_wait-first e old n fuel (i + 1) (λ j low high. same j (omega arith) (omega arith))
        other' (omega arith) in
    ground (arith, same i (omega arith) (omega arith), rest ∙ ap some there)
