-- ===== src/Fixed/Run.antt =====
-- Whole sequences of calls, from either side in any order, against the queue.
use spscring.Base.{
  ℕ, ◌-◌, ◌%◌, ◌/◌, append-nil, zero, suc, ◌+◌, ◌*◌, ◌≤◌, ◌<◌, ◌≡◌, refl, ap, ◌∙◌, List, [], ◌∷◌,
  Bool, false, Option, some, take, arith, length, u64_mod, ◌/◌,
}
use mathlib.Core.Option
use mathlib.Core.Path.{ap₂}
use native.Mathlib.Nat.{le_refl}
use spscring.Memory.{Memory, load, take-load}
use spscring.View.{Segment}
use spscring.Queue.{enqueue, dequeue}
use spscring.Fixed.{FixedWriter, write, read, item_count, load, Memory}
use spscring.Fixed.Valid.{IsValid}
use spscring.Fixed.Contents.{contents, slots_from, published}
use spscring.Fixed.Refine.{write_refines, write-IsValid, slot_image}
use spscring.Fixed.Consume.{read_refines, read-IsValid}

pub data Call : Type 0 where
  send : List ℕ → Call
  receive : Call

pub data Reply : Type 0 where
  sent : Bool → Reply
  received : Option (List ℕ) → Reply

-- The producer sends whole slots, and the consumer reads whole slots.
unfoldable pub run : FixedWriter → Segment → List Call → List Reply
run w s [] = []
run w s (send payload ∷ calls) =
    let (done, w', s') = write w s payload in sent done ∷ run w' s' calls
run w s (receive ∷ calls) =
    let (out, s') = read s.fixed_item_size s in received out ∷ run w s' calls

unfoldable pub run_queue : ℕ → List (List ℕ) → List Call → List Reply
run_queue bound q [] = []
run_queue bound q (send payload ∷ calls) =
    let (done, q') = enqueue bound q payload in sent done ∷ run_queue bound q' calls
run_queue bound q (receive ∷ calls) =
    let (out, q') = dequeue q in received out ∷ run_queue bound q' calls

abbrev pub WholeSlots : ℕ → List Call → Type 0
WholeSlots item [] = Unit {0}
WholeSlots item (send payload ∷ calls) = (length payload ≡ item) × WholeSlots item calls
WholeSlots item (receive ∷ calls) = WholeSlots item calls

-- What a call leaves of the geometry, and how far it moves `write_pos`.
record SameShape (s t : Segment) (step : ℕ) : Type 0 where
  item : t.fixed_item_size ≡ s.fixed_item_size
  capacity : t.data_capacity ≡ s.data_capacity
  write_le : t.write_pos ≤ s.write_pos + step

write-SameShape :
    (w : FixedWriter) (s : Segment) (payload : List ℕ)
    → SameShape s (write w s payload).2 s.fixed_item_size
unfolding write
write-SameShape w s payload = ground arith

read-SameShape : (size : ℕ) (s : Segment) → SameShape s (read size s).1 0
unfolding read
read-SameShape size s = ground arith

slot_image-whole :
    (s : Segment) (payload : List ℕ)
    → length payload ≡ s.fixed_item_size
    → slot_image s payload ≡ payload
unfolding slot_image load
slot_image-whole s payload e =
    let none_left : s.fixed_item_size - length payload ≡ 0 = omega arith in
    rw none_left (append-nil payload)

map-take-slots_from :
    (capacity item : ℕ) (m : Memory) (pos n : ℕ)
    → let q = slots_from capacity item m pos n in
      Option.map (take item) (dequeue q).0 ≡ (dequeue q).0
unfolding slots_from dequeue
map-take-slots_from capacity item m pos zero = refl
map-take-slots_from capacity item m pos (suc n) =
    ap some (take-load m (pos % capacity) item item (le_refl item))

read-whole :
    (w : FixedWriter) (s : Segment)
    → IsValid w s
    → let (out, s') = read s.fixed_item_size s in
      let (oldest, rest) = dequeue (contents s) in (out ≡ oldest) × (contents s' ≡ rest)
unfolding contents
read-whole w s v =
    let (answer, left, kept) = read_refines w s s.fixed_item_size v (le_refl s.fixed_item_size) in
    (
      answer
          ∙ map-take-slots_from s.data_capacity s.fixed_item_size s.bytes s.read_pos (published s),
      left,
    )

item_count-SameShape : {s t : Segment} {k : ℕ} → SameShape s t k → item_count t ≡ item_count s
unfolding item_count
item_count-SameShape f = ap₂ ◌/◌ f.capacity f.item

-- Every call answers as the queue of the ring's messages does, however many there are, while the
-- 64-bit positions last.
pub run_refines :
    (calls : List Call) (w : FixedWriter) (s : Segment)
    → IsValid w s
    → w.pending ≡ false
    → WholeSlots s.fixed_item_size calls
    → s.write_pos + s.fixed_item_size * suc (length calls) < u64_mod
    → run w s calls ≡ run_queue (item_count s) (contents s) calls
unfolding run run_queue
run_refines [] w s v e whole room = refl
run_refines (send payload ∷ calls) w s v e whole room =
    let (answer, kept) = write_refines w s payload v (omega arith) e (omega (arith, whole.0)) in
    let (valid, free) = write-IsValid w s payload v (omega arith) e in
    let shape = write-SameShape w s payload in
    let (done, w', s') = write w s payload in
    let image = ap (enqueue (item_count s) (contents s)) (slot_image-whole s payload whole.0) in
    ap₂ ◌∷◌ (ap (λ r. sent r.0) (answer ∙ image)) (
      run_refines calls w' s' valid free (rw shape.item whole.1) (grind (arith, shape))
      ∙ ap₂ (λ k q. run_queue k q calls) (item_count-SameShape shape)
          (ap (λ r. r.1) (answer ∙ image)))
run_refines (receive ∷ calls) w s v e whole room =
    let (answer, left) = read-whole w s v in
    let shape = read-SameShape s.fixed_item_size s in
    let s' = (read s.fixed_item_size s).1 in
    ap₂ ◌∷◌ (ap received answer) (
      run_refines calls w s' (read-IsValid w s s.fixed_item_size v) e (rw shape.item whole)
        (grind (arith, shape))
      ∙ ap₂ (λ k q. run_queue k q calls) (item_count-SameShape shape) left)
