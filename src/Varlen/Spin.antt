-- ===== src/Varlen/Spin.antt =====
-- The spinning read of the variable length ring. `scene i` is the segment as the attempt number i
-- finds it; the other side moves it between the attempts.
use mathlib.Core.Path.{subst}
use spscring.Base.{
  ℕ, zero, suc, ◌+◌, ◌≤◌, ◌<◌, ◌≡◌, refl, Bool, true, false, Option, none, some, if◌then◌else◌,
  arith,
}
use spscring.View.{Segment}
use spscring.Backoff.{AtomicBackoff, pause, pauses}
use spscring.Varlen.Reader.{Message, ReadResult, read}

-- On fuel: the read that has returned true, the segment and the backoff as they are left. An attempt
-- whose own loop is out of fuel is `none` as well.
unfoldable pub spin_until_read :
    (Message → Bool)
    → (ℕ → Segment)
    → ℕ
    → ℕ
    → AtomicBackoff
    → Option (ReadResult × Segment × AtomicBackoff)
unfolding read pause
spin_until_read handler scene zero i b = none
spin_until_read handler scene (suc fuel) i b =
    let rest = spin_until_read handler scene fuel (i + 1) (pause b).1 in
    elim (read handler (scene i)) [
      | none ↦ none
      | some (r, s) ↦ if r.consumed then some (r, s, b) else rest
    ]

-- If the reads before number i + n return false and that one true, then the spinning read returns
-- with it, after n pauses.
pub spin_until_read-first :
    (handler : Message → Bool) (scene : ℕ → Segment) (n fuel i : ℕ) (b : AtomicBackoff)
    (r : ReadResult) (s : Segment)
    → ((j : ℕ)
        → i ≤ j
        → j < i + n
        → (q : ReadResult) × (t : Segment) × (read handler (scene j) ≡ some (q, t))
          × (q.consumed ≡ false))
    → read handler (scene (i + n)) ≡ some (r, s)
    → r.consumed ≡ true
    → n < fuel
    → spin_until_read handler scene fuel i b ≡ some (r, s, pauses n b)
unfolding spin_until_read pauses
spin_until_read-first handler scene n zero i b r s before found takes enough = absurd (omega arith)
spin_until_read-first handler scene zero (suc fuel) i b r s before found takes enough =
    let here : read handler (scene i) ≡ some (r, s) =
      subst (λ k. read handler (scene k) ≡ some (r, s)) (omega arith) found in
    rw (spin_until_read, here, takes) refl
spin_until_read-first handler scene (suc n) (suc fuel) i b r s before found takes enough =
    let (q, t, first, refuses) = before i (omega arith) (omega arith) in
    rw (spin_until_read, first, refuses)
      (spin_until_read-first handler scene n fuel (i + 1) (pause b).1 r s
        (λ j low high. before j (omega arith) (omega arith))
        (subst (λ k. read handler (scene k) ≡ some (r, s)) (omega arith) found) takes (omega arith))
