-- ===== src/Wait/Loops.antt =====
-- The loops without a timeout of include/spscring/atomic_wait.hpp,
-- include/spscring/internal/atomic_wait_darwin.hpp and
-- include/spscring/internal/atomic_wait_win32.hpp, on fuel.
use native.Mathlib.Decide.{ℕ_discrete}
use spscring.Base.{
  ℕ, zero, suc, ◌+◌, ◌≤◌, ◌≡◌, ◌≢◌, ◌⊎◌, inl, inr, refl, List, [], ◌∷◌, Option, none, some, add32,
  arith,
}
use spscring.Wait.{Scene, atomic_poll, atomic_wait}
use spscring.Wait.Tuning.{WaitTuning}
use spscring.Wait.Windows.{PollAction, polling_action, polling_wait}

-- A load behind that many rounds has still found the old value.
abbrev pub Unchanged : Scene → ℕ → ℕ → Type 0
Unchanged e old rounds = (k : ℕ) × (rounds ≤ suc k) × (e.word k ≡ old)

module _ (e : Scene) (old rounds : ℕ) where
  -- A poll ends with a load that has found another value, or out of fuel.
  abbrev Ends : ℕ → Option ℕ → Type 0
  Ends i o =
      (Unchanged e old rounds × (o ≡ none)) ⊎ ((j : ℕ) × (o ≡ some j) × (i ≤ j) × (e.word j ≢ old))

  pub atomic_poll-Ends :
      (fuel i : ℕ)
      → rounds ≤ i + fuel
      → (fuel ≡ 0 → Unchanged e old rounds)
      → Ends i (atomic_poll e old fuel i)
  unfolding atomic_poll
  atomic_poll-Ends zero i enough out = inl (out refl, refl)
  atomic_poll-Ends (suc fuel) i enough out = elim (ℕ_discrete (e.word i) old) [
    | no other ↦ inr (i, ground (arith, other), omega arith, other)
    | yes same ↦ elim (atomic_poll-Ends fuel (i + 1) (omega arith) (λ z. (i, omega arith, same))) [
      | inl (u, ends) ↦ inl (u, ground (arith, same, ends))
      | inr (j, ends, le, other) ↦ inr (j, ground (arith, same, ends), omega arith, other)
    ]
  ]

  pub atomic_wait-Ends :
      (fuel i : ℕ)
      → rounds ≤ i + fuel
      → (fuel ≡ 0 → Unchanged e old rounds)
      → Ends i (atomic_wait e old fuel i)
  unfolding atomic_wait
  atomic_wait-Ends zero i enough out = inl (out refl, refl)
  atomic_wait-Ends (suc fuel) i enough out = elim (ℕ_discrete (e.word i) old) [
    | no other ↦ inr (i, ground (arith, other), omega arith, other)
    | yes same ↦ elim (atomic_wait-Ends fuel (i + 1) (omega arith) (λ z. (i, omega arith, same))) [
      | inl (u, ends) ↦ inl (u, ground (arith, same, ends))
      | inr (j, ends, le, other) ↦ inr (j, ground (arith, same, ends), omega arith, other)
    ]
  ]

  pub polling_wait-ends :
      (tuning : WaitTuning) (fuel iteration i : ℕ)
      → rounds ≤ i + fuel
      → (fuel ≡ 0 → Unchanged e old rounds)
      → (Unchanged e old rounds × (polling_wait tuning e old fuel iteration i ≡ none))
        ⊎ ((j : ℕ) × (acts : List PollAction) × (polling_wait tuning e old fuel iteration i
              ≡ some (j, acts))
            × (i ≤ j))
  unfolding polling_wait
  polling_wait-ends tuning zero iteration i enough out = inl (out refl, refl)
  polling_wait-ends tuning (suc fuel) iteration i enough out = elim (ℕ_discrete (e.word i) old) [
    | no other ↦ inr (i, [], ground (arith, other), omega arith)
    | yes same ↦
        elim (polling_wait-ends tuning fuel (add32 iteration 1) (i + 1) (omega arith)
          (λ z. (i, omega arith, same))) [
            | inl (u, ends) ↦ inl (u, ground (arith, same, ends))
            | inr (j, acts, ends, le) ↦ inr (
              j,
              polling_action tuning (add32 iteration 1) ∷ acts,
              ground (arith, same, ends),
              omega arith,
            )
          ]
  ]
