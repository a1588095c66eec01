-- ===== src/Wait/Answers.antt =====
-- What the timed wait answers on each platform.
use mathlib.Core.Path.{subst}
use native.Mathlib.Decide.{ℕ_discrete}
use spscring.Base.{
  ℕ, zero, suc, ◌+◌, ◌*◌, ◌-◌, ◌/◌, ◌≤◌, ◌<◌, ◌≡◌, ◌≢◌, refl, Bool, true, false, not, Option, none,
  some, ◌==◌, leb, ◌&&◌, sub32, arith, Bool-cases, inl, inr,
}
use spscring.Wait.{
  Scene, Timeout, indefinite, millis, poll_until, atomic_wait_for, os_sync_until, ulock_until,
  wait_on_address_until,
}
use spscring.Wait.Tuning.{WaitTuning}
use spscring.Wait.Windows.{
  has_native_wait_api, has_elapsed, poll_until_ticks, is_indefinite, windows_wait_for,
}
use spscring.Wait.Platforms.{
  Tier, Platform, linux, windows, apple, elsewhere, has_os_sync, darwin_wait_for, wait_for,
}
use spscring.Wait.Loops.{Unchanged, atomic_poll-Ends, atomic_wait-Ends, polling_wait-ends}

-- How a wait for a word to be other than `old` comes out: true after a load that has found another
-- value; false after one that has found the old value, and only of a wait with a timeout; or out of
-- fuel, behind so many rounds, after a load that has found the old value.
pub data Verdict (e : Scene) (old rounds : ℕ) (t : Timeout) : Option Bool → Type 0 where
  changed : (i : ℕ) → e.word i ≢ old → Verdict e old rounds t (some true)
  timed_out : (i : ℕ) → e.word i ≡ old → t ≢ indefinite → Verdict e old rounds t (some false)
  out_of_fuel : Unchanged e old rounds → Verdict e old rounds t none

finite : (t : Timeout) (b : Bool) → t ≡ indefinite → b && not (is_indefinite t) ≡ true → ⊥
finite indefinite true q x = cc
finite indefinite false q x = cc
finite (millis ms) b q x = cc

elapsed_finite : (t : Timeout) (d : ℕ) → t ≡ indefinite → has_elapsed t d ≡ true → ⊥
unfolding has_elapsed
elapsed_finite indefinite d q x = cc
elapsed_finite (millis ms) d q x = cc

module _ (e : Scene) (old rounds : ℕ) where
  os_sync_until-Verdict :
      (deadline ms fuel i : ℕ)
      → rounds ≤ i + fuel
      → (fuel ≡ 0 → Unchanged e old rounds)
      → Verdict e old rounds (millis ms) (os_sync_until e old deadline fuel i)
  unfolding os_sync_until
  os_sync_until-Verdict deadline ms zero i enough out = out_of_fuel (out refl)
  os_sync_until-Verdict deadline ms (suc fuel) i enough out = elim (ℕ_discrete (e.word i) old) [
    | no other ↦ subst (Verdict e old rounds (millis ms)) (ground (arith, other)) (changed i other)
    | yes same ↦
        let rest =
          os_sync_until-Verdict deadline ms fuel (i + 1) (omega arith)
            (λ z. (i, omega arith, same)) in
        let late_ : Verdict e old rounds (millis ms) (some false) = timed_out i same (λ q. cc) in
        elim (Bool-cases (leb deadline (e.now i))) [
          | inl late ↦ subst (Verdict e old rounds (millis ms)) (ground (arith, same, late)) late_
          | inr early ↦ elim (Bool-cases (e.expired i)) [
            | inl x ↦
                subst (Verdict e old rounds (millis ms)) (ground (arith, same, early, x)) late_
            | inr x ↦ subst (Verdict e old rounds (millis ms)) (ground (arith, same, early, x)) rest
          ]
        ]
  ]

  ulock_until-Verdict :
      (deadline ms fuel i : ℕ)
      → rounds ≤ i + fuel
      → (fuel ≡ 0 → Unchanged e old rounds)
      → Verdict e old rounds (millis ms) (ulock_until e old deadline fuel i)
  unfolding ulock_until
  ulock_until-Verdict deadline ms zero i enough out = out_of_fuel (out refl)
  ulock_until-Verdict deadline ms (suc fuel) i enough out = elim (ℕ_discrete (e.word i) old) [
    | no other ↦ subst (Verdict e old rounds (millis ms)) (ground (arith, other)) (changed i other)
    | yes same ↦
        let rest =
          ulock_until-Verdict deadline ms fuel (i + 1) (omega arith)
            (λ z. (i, omega arith, same)) in
        let late_ : Verdict e old rounds (millis ms) (some false) = timed_out i same (λ q. cc) in
        elim (Bool-cases ((deadline - e.now i) / 1000000 == 0)) [
          | inl late ↦ subst (Verdict e old rounds (millis ms)) (ground (arith, same, late)) late_
          | inr early ↦ subst (Verdict e old rounds (millis ms)) (ground (arith, same, early)) rest
        ]
  ]

  wait_on_address_until-Verdict :
      (t : Timeout) (fuel i : ℕ)
      → rounds ≤ i + fuel
      → (fuel ≡ 0 → Unchanged e old rounds)
      → Verdict e old rounds t (wait_on_address_until e old (is_indefinite t) fuel i)
  unfolding wait_on_address_until
  wait_on_address_until-Verdict t zero i enough out = out_of_fuel (out refl)
  wait_on_address_until-Verdict t (suc fuel) i enough out = elim (ℕ_discrete (e.word i) old) [
    | no other ↦ subst (Verdict e old rounds t) (ground (arith, other)) (changed i other)
    | yes same ↦
        let rest =
          wait_on_address_until-Verdict t fuel (i + 1) (omega arith)
            (λ z. (i, omega arith, same)) in
        elim (Bool-cases (e.expired i && not (is_indefinite t))) [
          | inr go_on ↦ subst (Verdict e old rounds t) (ground (arith, same, go_on)) rest
          | inl x ↦ elim (ℕ_discrete (e.word (i + 1)) old) [
            | no other ↦
                subst (Verdict e old rounds t) (ground (arith, same, x, other))
                  (changed (i + 1) other)
            | yes still ↦
                subst (Verdict e old rounds t) (ground (arith, same, x, still))
                  (timed_out (i + 1) still (λ q. finite t (e.expired i) q x))
          ]
        ]
  ]

  poll_until-Verdict :
      (deadline ms fuel poll_fuel i : ℕ)
      → rounds ≤ i + fuel
      → (fuel ≡ 0 → Unchanged e old rounds)
      → rounds ≤ poll_fuel
      → Verdict e old rounds (millis ms) (poll_until e old deadline fuel poll_fuel i)
  unfolding poll_until
  poll_until-Verdict deadline ms zero poll_fuel i enough out poll = out_of_fuel (out refl)
  poll_until-Verdict deadline ms (suc fuel) poll_fuel i enough out poll =
      elim (ℕ_discrete (e.word i) old) [
        | no other ↦
            subst (Verdict e old rounds (millis ms)) (ground (arith, other)) (changed i other)
        | yes same ↦ elim (Bool-cases (leb deadline (e.now i))) [
          | inl late ↦
              subst (Verdict e old rounds (millis ms)) (ground (arith, same, late))
                (timed_out i same (λ q. cc))
          | inr early ↦
              elim (atomic_poll-Ends e old rounds poll_fuel (i + 1) (omega arith)
                (λ z. (i, omega arith, same))) [
                  | inl (u, ends) ↦
                      subst (Verdict e old rounds (millis ms)) (ground (arith, same, early, ends))
                        (out_of_fuel u)
                  | inr (j, ends, le, _) ↦
                      subst (Verdict e old rounds (millis ms)) (ground (arith, same, early, ends)) (
                        poll_until-Verdict deadline ms fuel poll_fuel (j + 1) (omega arith)
                          (λ z. (i, omega arith, same)) poll)
                ]
        ]
      ]

  poll_until_ticks-Verdict :
      (tuning : WaitTuning) (ticks : ℕ → ℕ) (start : ℕ) (t : Timeout) (fuel poll_fuel i : ℕ)
      → rounds ≤ i + fuel
      → (fuel ≡ 0 → Unchanged e old rounds)
      → rounds ≤ poll_fuel
      → Verdict e old rounds t (poll_until_ticks tuning e ticks old start t fuel poll_fuel i)
  unfolding poll_until_ticks
  poll_until_ticks-Verdict tuning ticks start t zero poll_fuel i enough out poll =
      out_of_fuel (out refl)
  poll_until_ticks-Verdict tuning ticks start t (suc fuel) poll_fuel i enough out poll =
      elim (ℕ_discrete (e.word i) old) [
        | no other ↦ subst (Verdict e old rounds t) (ground (arith, other)) (changed i other)
        | yes same ↦ elim (Bool-cases (has_elapsed t (sub32 (ticks i) start))) [
          | inl late ↦
              subst (Verdict e old rounds t) (ground (arith, same, late))
                (timed_out i same (λ q. elapsed_finite t (sub32 (ticks i) start) q late))
          | inr early ↦
              elim (polling_wait-ends e old rounds tuning poll_fuel 0 (i + 1) (omega arith)
                (λ z. (i, omega arith, same))) [
                  | inl (u, ends) ↦
                      subst (Verdict e old rounds t) (ground (arith, same, early, ends))
                        (out_of_fuel u)
                  | inr (j, acts, ends, le) ↦
                      subst (Verdict e old rounds t) (ground (arith, same, early, ends)) (
                        poll_until_ticks-Verdict tuning ticks start t fuel poll_fuel (j + 1)
                          (omega arith) (λ z. (i, omega arith, same)) poll)
                ]
        ]
      ]

  darwin_wait_for-Verdict :
      (tier : Tier) (available : Bool) (t : Timeout) (fuel : ℕ)
      → 0 < fuel
      → rounds ≤ fuel
      → Verdict e old rounds t (darwin_wait_for tier available e old t fuel)
  unfolding darwin_wait_for
  darwin_wait_for-Verdict tier available indefinite fuel pos enough =
      elim (atomic_wait-Ends e old rounds fuel 0 (omega arith) (λ z. absurd (omega arith))) [
        | inl (u, ends) ↦
            subst (Verdict e old rounds indefinite) (ground (arith, ends)) (out_of_fuel u)
        | inr (j, ends, le, changes) ↦
            subst (Verdict e old rounds indefinite) (ground (arith, ends)) (changed j changes)
      ]
  darwin_wait_for-Verdict tier available (millis ms) fuel pos enough =
      let deadline = e.now 0 + ms * 1000000 in
      elim (Bool-cases (has_os_sync tier available)) [
        | inl yes_ ↦
            rw yes_
              (os_sync_until-Verdict deadline ms fuel 1 (omega arith) (λ z. absurd (omega arith)))
        | inr no_ ↦
            rw no_
              (ulock_until-Verdict deadline ms fuel 1 (omega arith) (λ z. absurd (omega arith)))
      ]

  -- On every platform but Linux, whatever the word, the clock and the system do: atomic_wait_for
  -- answers true only after a load that has found another value, and false only after one that has
  -- found the old value and if it has a timeout. With fuel for a number of rounds it fails to answer
  -- only if a load behind that many rounds still finds the old value; so it returns if the word has
  -- another value from some instant on.
  pub wait_for-Verdict :
      (p : Platform) (ticks : ℕ → ℕ) (t : Timeout) (fuel poll_fuel : ℕ)
      → p ≢ linux
      → 0 < fuel
      → 0 < poll_fuel
      → rounds ≤ fuel
      → rounds ≤ poll_fuel
      → Verdict e old rounds t (wait_for p e ticks old t fuel poll_fuel)
  unfolding wait_for windows_wait_for atomic_wait_for
  wait_for-Verdict linux ticks t fuel poll_fuel not_linux pos pos' enough poll =
      absurd (not_linux refl)
  wait_for-Verdict (windows api tuning) ticks t fuel poll_fuel not_linux pos pos' enough poll =
      elim (Bool-cases (has_native_wait_api api)) [
        | inl yes_ ↦
            rw yes_
              (wait_on_address_until-Verdict t fuel 0 (omega arith) (λ z. absurd (omega arith)))
        | inr no_ ↦ rw no_ (
            poll_until_ticks-Verdict tuning ticks (ticks 0) t fuel poll_fuel 1 (omega arith)
              (λ z. absurd (omega arith)) poll)
      ]
  wait_for-Verdict (apple tier available) ticks t fuel poll_fuel not_linux pos pos' enough poll =
      darwin_wait_for-Verdict tier available t fuel pos enough
  wait_for-Verdict elsewhere ticks indefinite fuel poll_fuel not_linux pos pos' enough poll =
      elim (atomic_poll-Ends e old rounds poll_fuel 0 (omega arith) (λ z. absurd (omega arith))) [
        | inl (u, ends) ↦
            subst (Verdict e old rounds indefinite) (ground (arith, ends)) (out_of_fuel u)
        | inr (j, ends, le, changes) ↦
            subst (Verdict e old rounds indefinite) (ground (arith, ends)) (changed j changes)
      ]
  wait_for-Verdict elsewhere ticks (millis ms) fuel poll_fuel not_linux pos pos' enough poll =
      poll_until-Verdict (e.now 0 + ms * 1000000) ms fuel poll_fuel 1 (omega arith)
        (λ z. absurd (omega arith)) poll

by_Verdict :
    {e : Scene} {old n : ℕ} {t : Timeout} {o : Option Bool}
    → ((i : ℕ) → n ≤ i → e.word i ≢ old)
    → Verdict e old (suc n) t o
    → (b : Bool) × (o ≡ some b)
by_Verdict later (changed i _) = (true, refl)
by_Verdict later (timed_out i _ _) = (false, refl)
by_Verdict later (out_of_fuel (k, behind, same)) = absurd (later k (omega arith) same)

-- If from instant n on the word has another value, then with fuel for n rounds atomic_wait_for
-- returns on every platform but Linux.
wait_for-returns :
    (p : Platform) (e : Scene) (ticks : ℕ → ℕ) (old : ℕ) (t : Timeout) (fuel poll_fuel n : ℕ)
    → p ≢ linux
    → ((i : ℕ) → n ≤ i → e.word i ≢ old)
    → n < fuel
    → n < poll_fuel
    → (b : Bool) × (wait_for p e ticks old t fuel poll_fuel ≡ some b)
wait_for-returns p e ticks old t fuel poll_fuel n not_linux later enough poll = by_Verdict later (
    wait_for-Verdict e old (suc n) p ticks t fuel poll_fuel not_linux (omega arith) (omega arith)
      (omega arith) (omega arith))
