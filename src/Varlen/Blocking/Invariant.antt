-- ===== src/Varlen/Blocking/Invariant.antt =====
-- The invariant of the blocking consumer and its producer.
use native.Mathlib.Decide.{dec_lt}
use spscring.View.{store_commit_seq}
use spscring.Base.{ℕ, ◌+◌, ◌%◌, ◌≤◌, ◌<◌, ◌≡◌, ◌⊎◌, ap, ◌∙◌, false, Bool, List, not, ltb, arith}
use spscring.Notify.Waiting.{BumperPc}
use spscring.Notify.Caller.{Caller, outside, inside, bump_counted, caller_woken, Line}
use spscring.Varlen.Header.{load_slot_size}
use spscring.Varlen.Reader.{Message}
use spscring.Varlen.Chain.{done, pad, item, Chain-le}
use spscring.Varlen.Threads.{
  Request, ProducerPc, ConsumerPc, pad_committed, resting, Threads, finds_nothing,
}
use spscring.Varlen.Threads.Invariant.{Ring, ring_of, HoldsIn, Inv}
use spscring.Varlen.Blocking.{Blocking, has_slot}

-- Inside the call the consumer has nothing else under way.
abbrev pub Rests : ConsumerPc → Caller → Type 0
Rests c outside = Unit {0}
Rests c (inside _ _) = c ≡ resting

-- The places at which the producer is about to bump commit_seq.
abbrev pub AtBump : ProducerPc → Type 0
AtBump p =
    (p ≡ ProducerPc.published) ⊎ ((r : Request) × (new_head : ℕ) × (p ≡ pad_committed r new_head))

pub record BlockingInv (timed : Bool) (b : Blocking) : Type 0 where
  pub ring : Inv b.threads
  pub line : Line timed b.commit_seq (has_slot b.segment) b.bumper b.call
  pub at_bump : b.bumper ≡ BumperPc.published → AtBump b.producer
  pub rests : Rests b.consumer b.call

pub Rests-counted : (p : ConsumerPc) (c : Caller) → Rests p c → Rests p (bump_counted c)
unfolding bump_counted
Rests-counted p outside k = tt
Rests-counted p (inside w n) k = k

pub Rests-woken : (p : ConsumerPc) (c : Caller) → Rests p c → Rests p (caller_woken c)
unfolding caller_woken
Rests-woken p outside k = tt
Rests-woken p (inside w n) k = k

-- The slot at the front is a whole one.
front-whole :
    (r : Ring) {ms : List Message}
    → HoldsIn r ms
    → r.read < r.commit
    → let size = load_slot_size r.bytes (r.read % r.capacity) in
      (8 ≤ size) × (r.read + size ≤ r.commit)
front-whole r (done e) lt = absurd (omega arith)
front-whole r (pad size al h fit a b c) lt = (omega (arith, a), omega (arith, a, Chain-le c))
front-whole r (item size x al p q fit a b d e c) lt =
    (omega (arith, a), omega (arith, a, Chain-le c))

-- read finds a slot that is committed.
pub finds_slot :
    (t : Threads)
    → Inv t
    → t.read_pos < t.commit_pos
    → finds_nothing t.segment t.read_pos t.commit_pos ≡ false
unfolding finds_nothing
finds_slot t inv lt =
    let (least, whole) = front-whole (ring_of t.segment) inv.holds lt in
    ground (arith, inv.fronts.small, inv.fronts.commit_le, least, whole)

-- It finds something exactly if a slot is committed.
pub has_slot_lem : (t : Threads) → Inv t → has_slot t.segment ≡ ltb t.read_pos t.commit_pos
unfolding has_slot finds_nothing
has_slot_lem t inv = elim (dec_lt t.read_pos t.commit_pos) [
  | yes lt ↦ ap not (finds_slot t inv lt) ∙ ground arith
  | no ge ↦ ground arith
]

-- A change of the word alone leaves the ring as it is.
pub store_commit_seq-Inv :
    (w : ℕ) (t : Threads) → Inv t → Inv (record t { segment = store_commit_seq w t.segment })
unfolding store_commit_seq
store_commit_seq-Inv w t inv = record {
  fronts = inv.fronts;
  producer_knows = inv.producer_knows;
  consumer_knows = inv.consumer_knows;
  held = inv.held;
  holds = inv.holds;
  in_order = inv.in_order;
}
