-- ===== src/Channel/Numbers.antt =====
-- Messages that are numbered in order.

use spscring.Base.{ℕ, ◌+◌, ◌≡◌, List, [], ◌∷◌, ◌++◌, length, arith}

module _ {ℓ} {A : Type ℓ} (number : A → ℕ) where
  -- The numbers are k, k + 1 and so on.
  abbrev pub Numbered : ℕ → List A → Type 0
  Numbered k [] = Unit {0}
  Numbered k (x ∷ xs) = (number x ≡ k) × Numbered (k + 1) xs

  pub Numbered-append :
      (k : ℕ) (xs : List A) (x : A)
      → Numbered k xs
      → number x ≡ k + length xs
      → Numbered k (xs ++ x ∷ [])
  Numbered-append k [] x h e = (omega (arith, e), tt)
  Numbered-append k (y ∷ ys) x (f, h) e = (f, Numbered-append (k + 1) ys x h (omega (arith, e)))

  -- The message behind n others has the number k + n.
  pub Numbered-at :
      (k : ℕ) (xs : List A) (x : A) (ys : List A)
      → Numbered k (xs ++ x ∷ ys)
      → number x ≡ k + length xs
  Numbered-at k [] x ys (e, h) = omega (arith, e)
  Numbered-at k (y ∷ xs) x ys (f, h) = omega (arith, Numbered-at (k + 1) xs x ys h)
