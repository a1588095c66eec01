-- ===== src/Fixed/Contents.antt =====
-- The messages that a fixed ring holds: the slots from `read_pos` to `commit_pos`, oldest first.
use spscring.Base.{
  ℕ, zero, suc, ◌+◌, ◌-◌, ◌*◌, ◌/◌, ◌%◌, ◌<◌, ◌≡◌, refl, ap, List, [], ◌∷◌, ◌++◌, length, arith,
}
use mathlib.Core.Path.{ap₂, subst}
use spscring.Memory.{Memory, load}
use spscring.View.{Segment}

module _ (capacity item : ℕ) where
  unfoldable pub slots_from : Memory → ℕ → ℕ → List (List ℕ)
  slots_from m pos zero = []
  slots_from m pos (suc n) = load m (pos % capacity) item ∷ slots_from m (pos + item) n

  pub length-slots_from : (m : Memory) (pos n : ℕ) → length (slots_from m pos n) ≡ n
  unfolding slots_from
  length-slots_from m pos zero = refl
  length-slots_from m pos (suc n) = ap suc (length-slots_from m (pos + item) n)

  -- One more slot goes to the end.
  pub slots_from-suc :
      (m : Memory) (pos n end : ℕ)
      → end ≡ pos + n * item
      → slots_from m pos (suc n) ≡ slots_from m pos n ++ load m (end % capacity) item ∷ []
  unfolding slots_from
  slots_from-suc m pos zero end e =
      rw e (ap (λ (p : ℕ). load m (p % capacity) item ∷ []) (omega arith))
  slots_from-suc m pos (suc n) end e =
      ap (◌∷◌ (load m (pos % capacity) item)) (slots_from-suc m (pos + item) n end (omega arith))

  -- Memories that agree on every slot hold the same messages.
  pub slots_from-agree :
      (m k : Memory) (pos n : ℕ)
      → ((i : ℕ)
          → i < n
          → load m ((pos + i * item) % capacity) item ≡ load k ((pos + i * item) % capacity) item)
      → slots_from m pos n ≡ slots_from k pos n
  unfolding slots_from
  slots_from-agree m k pos zero h = refl
  slots_from-agree m k pos (suc n) h = ap₂ ◌∷◌ (subst Same (omega arith) (h 0 (omega arith))) (
      slots_from-agree m k (pos + item) n
        (λ i lt. subst Same (omega arith) (h (suc i) (omega arith))))
    where
      Same : ℕ → Type 0
      Same p = load m (p % capacity) item ≡ load k (p % capacity) item

unfoldable pub published : Segment → ℕ
published s = (s.commit_pos - s.read_pos) / s.fixed_item_size

unfoldable pub contents : Segment → List (List ℕ)
contents s = slots_from s.data_capacity s.fixed_item_size s.bytes s.read_pos (published s)

-- The contents of a segment given by its fields.
pub contents-fields :
    (s : Segment) (capacity item read n : ℕ) (m : Memory)
    → s.data_capacity ≡ capacity
    → s.fixed_item_size ≡ item
    → s.bytes ≡ m
    → s.read_pos ≡ read
    → published s ≡ n
    → contents s ≡ slots_from capacity item m read n
unfolding contents
contents-fields s capacity item read n m a b c d e = cc

pub length-contents : (s : Segment) → length (contents s) ≡ published s
unfolding contents
length-contents s =
    length-slots_from s.data_capacity s.fixed_item_size s.bytes s.read_pos (published s)
