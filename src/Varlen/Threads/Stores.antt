-- ===== src/Varlen/Threads/Stores.antt =====
-- What a store by one thread leaves as the other thread knows it.

use native.Mathlib.Nat.{mod-lt}
use spscring.Base.{ℕ, ◌+◌, ◌%◌, ◌≤◌, ◌<◌, ◌≡◌, ◌≢◌, sym, ap, ◌∙◌, List, arith}
use spscring.Memory.{Memory, load, Outside}
use spscring.Varlen.Header.{load_payload_size}
use spscring.Varlen.Writer.{VarlenWriter}
use spscring.Varlen.Reader.{Message}
use spscring.Varlen.Chain.{SameFront, Chain-kept, Chain-front_kept}
use spscring.Varlen.Threads.{
  ProducerPc, idle, at_head, loaded_read, pad_won, pad_stored, pad_committed, slot_won, filling,
  published, ConsumerPc, resting, loaded_front, loaded_fronts, skipping, showing, shown, advanced,
}
use spscring.Varlen.Threads.Invariant.{
  Ring, Fronts, gap, message_in, ProducerKnows, ConsumerKnows, HoldsIn,
}

message_in-kept :
    (m k : Memory) (at : ℕ)
    → load_payload_size m at ≢ 0
    → SameFront m k at
    → message_in m at ≡ message_in k at
message_in-kept m k at some_there f = λ i. record {
  payload = (f.payload some_there ∙ ap (load k (at + 32)) f.payload_size) i;
  meta = f.meta some_there i;
}

-- A store by the producer: commit_pos does not go back, and the slot at the front stays.
pub ConsumerKnows-kept :
    (r : Ring) (commit write : ℕ) (k : Memory)
    → r.commit ≤ commit
    → (r.read < r.commit → SameFront r.bytes k (r.read % r.capacity))
    → (p : ConsumerPc) → ConsumerKnows r p
    → ConsumerKnows (record r { commit = commit; write = write; bytes = k }) p
ConsumerKnows-kept r c w k le f resting h = tt
ConsumerKnows-kept r c w k le f (loaded_front read) h = h
ConsumerKnows-kept r c w k le f (loaded_fronts read committed) (h, l) = (h, omega arith)
ConsumerKnows-kept r c w k le f (skipping read) (h, l, none_there) =
    (h, omega arith, sym (f l).payload_size ∙ none_there)
ConsumerKnows-kept r c w k le f (showing read) (h, l, some_there) =
    (h, omega arith, λ e. some_there ((f l).payload_size ∙ e))
ConsumerKnows-kept r c w k le f (shown read x) ((h, l, some_there), e) = (
  (h, omega arith, λ e. some_there ((f l).payload_size ∙ e)),
  e ∙ message_in-kept r.bytes k (r.read % r.capacity) some_there (f l),
)
ConsumerKnows-kept r c w k le f advanced h = tt

-- A store by the consumer: read_pos does not go back.
pub ProducerKnows-kept :
    (w : VarlenWriter) (r : Ring) (read : ℕ)
    → r.read ≤ read
    → (p : ProducerPc) → ProducerKnows w r p
    → ProducerKnows w (record r { read = read }) p
ProducerKnows-kept w r read le idle h = h
ProducerKnows-kept w r read le (at_head q head) h = h
ProducerKnows-kept w r read le (loaded_read q head seen) (a, b, c, d, e) = (a, b, c, omega arith, e)
ProducerKnows-kept w r read le (pad_won q head) h = h
ProducerKnows-kept w r read le (pad_stored q head) h = h
ProducerKnows-kept w r read le (pad_committed q new_head) h = h
ProducerKnows-kept w r read le (slot_won q head) h = h
ProducerKnows-kept w r read le (filling q position) h = h
ProducerKnows-kept w r read le published h = h

-- A store of bytes in the stretch of n bytes behind commit_pos.
module _ (r : Ring) (f : Fronts r) (n : ℕ) (pos : 0 < n) (fits : n ≤ gap r r.commit)
    (below : r.commit + n ≤ r.write) (k : Memory)
    (same : (i : ℕ) → i < r.capacity → Outside (r.commit % r.capacity) n i → r.bytes i ≡ k i)
    {ms : List Message} (holds : HoldsIn r ms) where
  in_region : r.commit % r.capacity + n ≤ r.capacity
  in_region = omega (arith, mod-lt r.commit f.room)

  pub HoldsIn-kept : HoldsIn (record r { bytes = k }) ms
  HoldsIn-kept =
      Chain-kept r.bytes k r.capacity r.commit n pos in_region same holds (omega arith)
        (omega (arith, f.write_le))

  pub front_kept : r.read < r.commit → SameFront r.bytes k (r.read % r.capacity)
  front_kept lt =
      Chain-front_kept r.bytes k r.capacity r.commit n pos in_region same holds lt (omega arith)
        (omega (arith, f.write_le))

  pub ConsumerKnows-stored :
      (p : ConsumerPc) → ConsumerKnows r p → ConsumerKnows (record r { bytes = k }) p
  ConsumerKnows-stored = ConsumerKnows-kept r r.commit r.write k (omega arith) front_kept
