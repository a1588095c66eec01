-- ===== src/Memory.antt =====
-- The data region that follows the control block, as bytes at offsets from `data_`, with what
-- `std::memcpy` into it and out of it does.
use Prim.Native.Nat.add
use mathlib.Core.Path.{ap₂, sym}
use spscring.Base.{
  inr, take, ◌-◌, ◌∙◌, ◌++◌, ℕ, zero, suc, ◌+◌, ◌≤◌, ◌<◌, ◌≡◌, refl, ap, ◌⊎◌, inl, List, [], ◌∷◌,
  length, ◌==◌, if◌then◌else◌, arith, length-append,
}

abbrev pub Memory : Type 0
Memory = ℕ → ℕ

-- std::memcpy(data_ + at, bytes, size)
unfoldable pub store : Memory → ℕ → List ℕ → Memory
store m at [] = m
store m at (b ∷ bs) = store (λ i. if i == at then b else m i) (at + 1) bs

-- std::memcpy(out, data_ + at, size)
unfoldable pub load : Memory → ℕ → ℕ → List ℕ
load m at zero = []
load m at (suc n) = m at ∷ load m (at + 1) n

-- The offset i lies outside the n bytes from `at` on.
abbrev pub Outside : ℕ → ℕ → ℕ → Type 0
Outside at n i = (i < at) ⊎ (at + n ≤ i)

pub store-Outside :
    (m : Memory) (at : ℕ) (bs : List ℕ) (i : ℕ) → Outside at (length bs) i → store m at bs i ≡ m i
unfolding store
store-Outside m at [] i h = refl
store-Outside m at (b ∷ bs) i h =
    ground (arith, store-Outside (λ j. if j == at then b else m j) (at + 1) bs i)

pub length-load : (m : Memory) (at n : ℕ) → length (load m at n) ≡ n
unfolding load
length-load m at zero = refl
length-load m at (suc n) = ap suc (length-load m (at + 1) n)

-- A region reads the same in two memories that agree on it.
pub load-agree :
    (m k : Memory) (at n : ℕ)
    → ((i : ℕ) → at ≤ i → i < at + n → m i ≡ k i)
    → load m at n ≡ load k at n
unfolding load
load-agree m k at zero h = refl
load-agree m k at (suc n) h = ground (
  arith,
  h at (omega arith) (omega arith),
  load-agree m k (at + 1) n (λ i p q. h i (omega arith) (omega arith)),
)

pub load-store : (m : Memory) (at : ℕ) (bs : List ℕ) → load (store m at bs) at (length bs) ≡ bs
unfolding load store
load-store m at [] = refl
load-store m at (b ∷ bs) =
    let m' = λ (i : ℕ). if i == at then b else m i in
    ground (arith, load-store m' (at + 1) bs, store-Outside m' (at + 1) bs at (inl (omega arith)))

-- A copy leaves every region that it does not meet.
pub load-store_apart :
    (m : Memory) (at : ℕ) (bs : List ℕ) (from n : ℕ)
    → (from + n ≤ at) ⊎ (at + length bs ≤ from)
    → load (store m at bs) from n ≡ load m from n
load-store_apart m at bs from n h =
    load-agree _ m from n (λ i p q. store-Outside m at bs i (ground arith))

-- A region read in two parts.
pub load-add : (m : Memory) (at n k : ℕ) → load m at (n + k) ≡ load m at n ++ load m (at + n) k
unfolding load
load-add m at zero k = ap₂ (load m) (omega arith) (omega arith)
load-add m at (suc n) k =
    rw (add.suc n k, load-add m (at + 1) n k)
      (ap (λ p. m at ∷ load m (at + 1) n ++ load m p k) (omega arith))

pub take-load : (m : Memory) (at n k : ℕ) → n ≤ k → take n (load m at k) ≡ load m at n
unfolding load
take-load m at zero k h = refl
take-load m at (suc n) zero h = absurd (omega arith)
take-load m at (suc n) (suc k) h = rw (take-load m (at + 1) n k (omega arith))

-- What a slot holds after a shorter copy to its start: the copied bytes, then the old ones.
pub load-store_prefix :
    (m : Memory) (at : ℕ) (bs : List ℕ) (n : ℕ)
    → length bs ≤ n
    → load (store m at bs) at n ≡ bs ++ load m (at + length bs) (n - length bs)
load-store_prefix m at bs n h =
    let e : n ≡ length bs + (n - length bs) = omega arith in
    ap (load (store m at bs) at) e
    ∙ load-add (store m at bs) at (length bs) (n - length bs)
    ∙ ap₂ ◌++◌ (load-store m at bs)
        (load-store_apart m at bs (at + length bs) (n - length bs) (inr (omega arith)))

pub take-append : (xs ys : List ℕ) → take (length xs) (xs ++ ys) ≡ xs
take-append [] ys = refl
take-append (x ∷ xs) ys = rw (take-append xs ys)

-- A part of what was copied in is read back from its place.
pub load-store_part :
    (m : Memory) (at : ℕ) (xs ys zs : List ℕ) (from : ℕ)
    → from ≡ at + length xs
    → load (store m at (xs ++ (ys ++ zs))) from (length ys) ≡ ys
unfolding store
load-store_part m at [] ys zs from e =
    let here : from ≡ at = omega arith in
    let m' = store m at (ys ++ zs) in
    let fits : length ys ≤ length (ys ++ zs) = omega (arith, length-append ys zs) in
    ap (λ p. load m' p (length ys)) here
    ∙ sym (take-load m' at (length ys) (length (ys ++ zs)) fits)
    ∙ ap (take (length ys)) (load-store m at (ys ++ zs))
    ∙ take-append ys zs
load-store_part m at (x ∷ xs) ys zs from e =
    load-store_part (λ i. if i == at then x else m i) (at + 1) xs ys zs from (omega arith)
