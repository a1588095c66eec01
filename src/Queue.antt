-- ===== src/Queue.antt =====
-- A bounded first-in first-out queue, oldest item first: what a ring promises.
use spscring.Base.{
  ℕ, Bool, true, false, Option, none, some, List, [], ◌∷◌, ◌++◌, length, ◌==◌, if◌then◌else◌,
}

module _ {ℓ} {A : Type ℓ} where
  -- At the bound nothing is added, and the result says so.
  unfoldable pub enqueue : ℕ → List A → A → Bool × List A
  enqueue bound q x = if length q == bound then (false, q) else (true, q ++ x ∷ [])

  unfoldable pub dequeue : List A → Option A × List A
  dequeue [] = (none, [])
  dequeue (x ∷ q) = (some x, q)
