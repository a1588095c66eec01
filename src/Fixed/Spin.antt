-- ===== src/Fixed/Spin.antt =====
-- The spinning calls of the fixed ring (spin_until_read, spin_until_reserve). `scene i` is the
-- segment as the attempt number i finds it; the other side moves it between the attempts.
use mathlib.Core.Path.{subst}
use spscring.Base.{ℕ, zero, suc, ◌+◌, ◌≤◌, ◌<◌, ◌≡◌, refl, ap, ◌∙◌, true, Option, none, some, arith}
use spscring.View.{Segment}
use spscring.Backoff.{AtomicBackoff, pause, pauses}
use spscring.Fixed.{FixedWriter, try_read, try_reserve}
use spscring.Fixed.Valid.{try_reserve-pending}

-- On fuel: the slot and the backoff as it is left.
unfoldable pub spin_until_read :
    (ℕ → Segment) → ℕ → ℕ → AtomicBackoff → Option ((ℕ × ℕ) × AtomicBackoff)
unfolding try_read pause
spin_until_read scene zero i b = none
spin_until_read scene (suc fuel) i b =
    let rest = spin_until_read scene fuel (i + 1) (pause b).1 in
    elim (try_read (scene i)) [ none ↦ rest | some slot ↦ some (slot, b) ]

unfoldable pub spin_until_reserve :
    (ℕ → Segment)
    → ℕ
    → ℕ
    → FixedWriter
    → AtomicBackoff
    → Option (ℕ × FixedWriter × Segment × AtomicBackoff)
unfolding try_reserve pause
spin_until_reserve scene zero i w b = none
spin_until_reserve scene (suc fuel) i w b =
    let (slot, w', s') = try_reserve w (scene i) in
    let rest = spin_until_reserve scene fuel (i + 1) w' (pause b).1 in
    elim slot [ none ↦ rest | some at ↦ some (at, w', s', b) ]

-- If the attempts before number i + n find no slot and that one finds it, then this slot is
-- returned, after n pauses.
pub spin_until_read-first :
    (scene : ℕ → Segment) (n fuel i : ℕ) (b : AtomicBackoff) (slot : ℕ × ℕ)
    → ((j : ℕ) → i ≤ j → j < i + n → try_read (scene j) ≡ none)
    → try_read (scene (i + n)) ≡ some slot
    → n < fuel
    → spin_until_read scene fuel i b ≡ some (slot, pauses n b)
unfolding spin_until_read pauses
spin_until_read-first scene n zero i b slot before found enough = absurd (omega arith)
spin_until_read-first scene zero (suc fuel) i b slot before found enough =
    let here : try_read (scene i) ≡ some slot =
      subst (λ k. try_read (scene k) ≡ some slot) (omega arith) found in
    rw (spin_until_read, here) refl
spin_until_read-first scene (suc n) (suc fuel) i b slot before found enough =
    rw (spin_until_read, before i (omega arith) (omega arith))
      (spin_until_read-first scene n fuel (i + 1) (pause b).1 slot
        (λ j low high. before j (omega arith) (omega arith))
        (subst (λ k. try_read (scene k) ≡ some slot) (omega arith) found) (omega arith))

-- With a reservation pending spin_until_reserve does not return, whatever the fuel and the other
-- side does.
spin_until_reserve-pending :
    (scene : ℕ → Segment) (fuel i : ℕ) (w : FixedWriter) (b : AtomicBackoff)
    → w.pending ≡ true
    → spin_until_reserve scene fuel i w b ≡ none
unfolding spin_until_reserve
spin_until_reserve-pending scene zero i w b e = refl
spin_until_reserve-pending scene (suc fuel) i w b e =
    ap
      (λ (r : Option ℕ × FixedWriter × Segment).
        elim r.0 as (λ _. Option (ℕ × FixedWriter × Segment × AtomicBackoff)) [
          | none ↦ spin_until_reserve scene fuel (i + 1) r.1 (pause b).1
          | some at ↦ some (at, r.1, r.2, b)
        ])
      (try_reserve-pending w (scene i) e)
    ∙ spin_until_reserve-pending scene fuel (i + 1) w (pause b).1 e
