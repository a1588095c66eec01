-- ===== src/Runs.antt =====
-- Steps of one side of a program, counted.
use spscring.Base.{ℕ, suc}

pub data Run {A : Type 0} (side : A → A → Type 0) (a : A) : ℕ → A → Type 0 where
  stay : Run side a 0 a
  go : {n : ℕ} {b c : A} → Run side a n b → side b c → Run side a (suc n) c
