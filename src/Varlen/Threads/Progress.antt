-- ===== src/Varlen/Threads/Progress.antt =====
-- try_reserve of the variable length ring ends after a bounded number of its own accesses, whatever
-- the consumer does meanwhile.
use native.Mathlib.Nat.{mod-lt, mod-add-mod, mod_self}
use spscring.Base.{
  ℕ, suc, ◌+◌, ◌-◌, ◌%◌, ◌≤◌, ◌<◌, ◌≡◌, ◌≢◌, ◌⊎◌, inl, inr, refl, sym, ap, ◌∙◌, u64_mod, ◌==◌,
  if◌then◌else◌, arith, add64,
}
use spscring.View.{store_write_pos, store_commit_pos, store_read_pos, wake_consumer, wake_producer}
use spscring.Varlen.Writer.{store_slot}
use spscring.Varlen.Threads.Reached.{Reserving-Inv, ConsumerStep-Inv}
use spscring.Varlen.Threads.{
  Request, ProducerPc, idle, at_head, loaded_read, pad_won, pad_stored, pad_committed, slot_won,
  filling, published, Threads, Decision, decide, padding, Reserving, load_read_pos, find_full, lose,
  win_padding, store_padding, commit_padding, wake_for_padding, win_slot, store_header,
  ConsumerStep, reading, Reading, load_commit_pos, find_nothing, find_padding, find_message, skip,
  show, decline, take,
}
use spscring.Varlen.Threads.Invariant.{Inv, producer_at, ring_of}
use spscring.Varlen.Threads.Room.{decide-pad, gap-facts}

-- The accesses that try_reserve has still to make at most: in a round at the start of the region,
-- and in one that may have to pad.
abbrev pub accesses_left : ℕ → ProducerPc → ℕ
accesses_left capacity (at_head r head) = if head % capacity == 0 then 3 else 8
accesses_left capacity (loaded_read r head read) = if head % capacity == 0 then 2 else 7
accesses_left capacity (pad_won r head) = 6
accesses_left capacity (pad_stored r head) = 5
accesses_left capacity (pad_committed r new_head) = if new_head % capacity == 0 then 4 else 9
accesses_left capacity (slot_won r head) = 1
accesses_left capacity _ = 0

module _ (t : Threads) (inv : Inv t) where
  open inv use {fronts}

  -- Behind a padding slot the next one starts the region.
  padded-mod :
      (r : Request) (head : ℕ)
      → t.producer ≡ pad_stored r head
      → add64 head (padding t.segment head) % t.data_capacity ≡ 0
  unfolding padding
  padded-mod r head e =
      let (free, served, (now, end, fits), size, none) = producer_at t inv e in
      let (multiple, least, whole) = gap-facts (ring_of t.segment) fronts in
      let lt = mod-lt t.commit_pos fronts.room in
      let sum : add64 head (padding t.segment head)
          ≡ t.commit_pos + (t.data_capacity - t.commit_pos % t.data_capacity) =
        rw now (omega (arith, fronts.small)) in
      ap (λ p. p % t.data_capacity) sum
      ∙ sym (
          mod-add-mod t.commit_pos t.data_capacity
            (t.data_capacity - t.commit_pos % t.data_capacity))
      ∙ ap (λ p. p % t.data_capacity) whole
      ∙ mod_self t.data_capacity

  Reserving-less :
      {t' : Threads}
      → Reserving t t'
      → accesses_left t.data_capacity t'.producer < accesses_left t.data_capacity t.producer
  Reserving-less (load_read_pos r head e) = rw e (ground arith)
  Reserving-less (find_full r head read e h) = rw e (ground arith)
  Reserving-less (lose r head read e h) = absurd (h (sym (producer_at t inv e).1))
  Reserving-less (win_padding r head read e h now space) =
      let (free, at, served, low, within) = producer_at t inv e in
      let (under, short, is_gap) =
        decide-pad t.segment r head read fronts.room (omega (arith, fronts)) (omega arith) served.1
          (omega arith) h in
      let off : head % t.data_capacity ≢ 0 = omega arith in rw e (ground (arith, off))
  Reserving-less (store_padding r head e) = rw e (ground arith)
  Reserving-less (commit_padding r head e) = rw e (ground (arith, padded-mod r head e))
  Reserving-less (wake_for_padding r new_head e) = rw e (ground arith)
  Reserving-less (win_slot r head read e h now space) = rw e (ground arith)
  Reserving-less (store_header r head e) = rw e (ground arith)

  by_decision :
      (r : Request) (head read : ℕ)
      → t.producer ≡ loaded_read r head read
      → (d : Decision) → decide t.segment r head read ≡ d
      → t.write_pos + t.data_capacity + t.data_capacity < u64_mod
      → (t' : Threads) × Reserving t t'
  by_decision r head read e Decision.give_up h space = (_, find_full r head read e h)
  by_decision r head read e Decision.pad h space =
      (_, win_padding r head read e h (sym (producer_at t inv e).1) space)
  by_decision r head read e Decision.take h space =
      (_, win_slot r head read e h (sym (producer_at t inv e).1) space)

  -- Inside the call there is always an access to make.
  next_access :
      t.write_pos + t.data_capacity + t.data_capacity < u64_mod
      → (accesses_left t.data_capacity t.producer ≡ 0) ⊎ ((t' : Threads) × Reserving t t')
  next_access space = go t.producer refl
    where
      go :
          (p : ProducerPc)
          → t.producer ≡ p
          → (accesses_left t.data_capacity t.producer ≡ 0) ⊎ ((t' : Threads) × Reserving t t')
      go idle e = inl (rw e refl)
      go (at_head r head) e = inr (_, load_read_pos r head e)
      go (loaded_read r head read) e =
          inr (by_decision r head read e (decide t.segment r head read) refl space)
      go (pad_won r head) e = inr (_, store_padding r head e)
      go (pad_stored r head) e = inr (_, commit_padding r head e)
      go (pad_committed r new_head) e = inr (_, wake_for_padding r new_head e)
      go (slot_won r head) e = inr (_, store_header r head e)
      go (filling r position) e = inl (rw e refl)
      go published e = inl (rw e refl)

-- Accesses of try_reserve, counted, with steps of the consumer between them.
pub data Call (t : Threads) : ℕ → Threads → Type 0 where
  start : Call t 0 t
  own : {n : ℕ} {u v : Threads} → Call t n u → Reserving u v → Call t (suc n) v
  other : {n : ℕ} {u v : Threads} → Call t n u → ConsumerStep u v → Call t n v

-- What neither the consumer nor try_reserve changes, and what the consumer does not.
Reserving-capacity : {t t' : Threads} → Reserving t t' → t'.data_capacity ≡ t.data_capacity
unfolding store_slot store_write_pos store_commit_pos wake_consumer
Reserving-capacity (load_read_pos r head e) = refl
Reserving-capacity (find_full r head read e h) = refl
Reserving-capacity (lose r head read e h) = refl
Reserving-capacity (win_padding r head read e h now space) = refl
Reserving-capacity (store_padding r head e) = refl
Reserving-capacity (commit_padding r head e) = refl
Reserving-capacity (wake_for_padding r new_head e) = refl
Reserving-capacity (win_slot r head read e h now space) = refl
Reserving-capacity (store_header r head e) = refl

ConsumerStep-kept :
    {t t' : Threads}
    → ConsumerStep t t'
    → (t'.data_capacity ≡ t.data_capacity) × (t'.producer ≡ t.producer)
unfolding store_read_pos wake_producer
ConsumerStep-kept (reading (Reading.load_read_pos e)) = (refl, refl)
ConsumerStep-kept (reading (load_commit_pos read e)) = (refl, refl)
ConsumerStep-kept (reading (find_nothing read c e h)) = (refl, refl)
ConsumerStep-kept (reading (find_padding read c e h n)) = (refl, refl)
ConsumerStep-kept (reading (find_message read c e h n)) = (refl, refl)
ConsumerStep-kept (reading (skip read e)) = (refl, refl)
ConsumerStep-kept (reading (show read e)) = (refl, refl)
ConsumerStep-kept (decline read x e) = (refl, refl)
ConsumerStep-kept (take read x e) = (refl, refl)
ConsumerStep-kept (ConsumerStep.wake e) = (refl, refl)

Call-Inv : {t u : Threads} {n : ℕ} → Inv t → Call t n u → Inv u
Call-Inv inv start = inv
Call-Inv inv (own c m) = Reserving-Inv m (Call-Inv inv c)
Call-Inv inv (other c m) = ConsumerStep-Inv m (Call-Inv inv c)

Call-left :
    {t u : Threads} {n : ℕ}
    → Inv t
    → Call t n u
    → n + accesses_left u.data_capacity u.producer ≤ accesses_left t.data_capacity t.producer
Call-left inv start = omega arith
Call-left inv (own {u} {v} c m) =
    let less : accesses_left v.data_capacity v.producer < accesses_left u.data_capacity u.producer =
      rw (Reserving-capacity m) (Reserving-less u (Call-Inv inv c) m) in
    omega (arith, Call-left inv c, less)
Call-left inv (other {u} {v} c m) =
    let (kept, same) = ConsumerStep-kept m in rw (kept, same) (Call-left inv c)

at_head-most : (capacity : ℕ) (r : Request) (head : ℕ) → accesses_left capacity (at_head r head) ≤ 8
at_head-most capacity r head = ground arith

-- A try_reserve that has loaded write_pos ends after at most eight further accesses of its own,
-- however many steps of the consumer fall between them; and until it has ended it has an access to
-- make, while the 64-bit positions last.
pub try_reserve_ends :
    {t u : Threads} {r : Request} {head n : ℕ}
    → Inv t
    → t.producer ≡ at_head r head
    → u.write_pos + u.data_capacity + u.data_capacity < u64_mod
    → Call t n u
    → (n ≤ 8) × ((accesses_left u.data_capacity u.producer ≡ 0) ⊎ ((v : Threads) × Reserving u v))
try_reserve_ends {t} {u} {r} {head} inv e space c = (
  omega (
    arith,
    Call-left inv c,
    ap (accesses_left t.data_capacity) e,
    at_head-most t.data_capacity r head,
  ),
  next_access u (Call-Inv inv c) space,
)
