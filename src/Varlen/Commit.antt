-- ===== src/Varlen/Commit.antt =====
-- `commit`, and that the calls between `try_reserve` and `commit` keep the invariant.
use mathlib.Core.Path.{subst}
use native.Mathlib.Decide.{ℕ_discrete}
use spscring.Base.{
  ℕ, ◌%◌, ◌<◌, ◌≡◌, refl, sym, ◌∙◌, ◌⊎◌, inl, inr, Bool-cases, true, false, u64_mod, add64, arith,
  ◌≢◌,
}
use spscring.View.{Segment, store_commit_pos, wake_consumer}
use spscring.Varlen.Header.{load_slot_size}
use spscring.Varlen.Writer.{VarlenWriter, commit}
use spscring.Varlen.Valid.{IsValid}

module _ (position : ℕ) (w : VarlenWriter) (s : Segment) (v : IsValid w s)
    (room : s.write_pos < u64_mod) where
  abbrev pub released : VarlenWriter
  released = record w { pending = false }

  abbrev pub published : Segment
  published = wake_consumer (store_commit_pos s.write_pos s)

  commit-pending :
      w.pending ≡ true → position ≡ w.last_position → commit position w s ≡ (released, published)
  unfolding commit
  commit-pending e same =
      let (last, size) = v.reserved e in
      let here : position ≡ s.commit_pos = same ∙ last in
      let end : add64 position (load_slot_size s.bytes (position % s.data_capacity)) ≡ s.write_pos =
        rw here (omega (arith, size)) in
      rw end (ground (arith, e, same))

  commit-idle : w.pending ≡ false → commit position w s ≡ (w, s)
  unfolding commit
  commit-idle e = ground (arith, e)

  commit-stale : position ≢ w.last_position → commit position w s ≡ (w, s)
  unfolding commit
  commit-stale other = ground (arith, other)

  published-IsValid : IsValid released published
  unfolding wake_consumer store_commit_pos
  published-IsValid = record {
    ring = record { alignment = v.alignment; word = v.word; room = v.room; aligned = v.aligned };
    read_le = omega arith;
    commit_le = omega arith;
    write_le = v.write_le;
    read_slot = v.read_slot;
    commit_slot = v.write_slot;
    write_slot = v.write_slot;
    free = λ _. refl;
    reserved = λ h. cc;
  }

  -- With a reservation at `position` outstanding, `commit` publishes exactly what has been
  -- reserved, up to `write_pos`, and nothing is reserved afterwards; without one it leaves the
  -- writer and the segment as they were. Either way the ring stays valid.
  pub commit_lem :
      (((w.pending ≡ true)
          × (position ≡ w.last_position)
          × (commit position w s ≡ (released, published)))
        ⊎ (((w.pending ≡ false) ⊎ (position ≢ w.last_position)) × (commit position w s ≡ (w, s))))
      × IsValid (commit position w s).0 (commit position w s).1
  commit_lem = elim (Bool-cases w.pending) [
    | inr e ↦ (
      inr (inl e, commit-idle e),
      subst (λ (r : VarlenWriter × Segment). IsValid r.0 r.1) (sym (commit-idle e)) v,
    )
    | inl e ↦ elim (ℕ_discrete position w.last_position) [
      | yes same ↦ (
        inl (e, same, commit-pending e same),
        subst (λ (r : VarlenWriter × Segment). IsValid r.0 r.1) (sym (commit-pending e same))
            published-IsValid,
      )
      | no other ↦ (
        inr (inr other, commit-stale other),
        subst (λ (r : VarlenWriter × Segment). IsValid r.0 r.1) (sym (commit-stale other)) v,
      )
    ]
  ]
