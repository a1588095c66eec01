-- ===== src/Varlen/Blocking/Safety.antt =====
-- What holds in every state that the blocking consumer and its producer reach.
use mathlib.Core.Path.{subst}
use native.Mathlib.Decide.{ℕ_discrete}
use spscring.View.{store_commit_seq, store_read_pos, wake_consumer}
use spscring.Base.{
  ℕ, ◌+◌, ◌%◌, ◌^◌, ◌≤◌, ◌<◌, ◌≡◌, inl, inr, refl, ap, Bool, true, List, [], ◌∷◌, ◌++◌, arith,
  add64,
}
use spscring.Runs.{Run, stay, go}
use spscring.Notify.Waiting.{top, asleep, bumped, stop}
use spscring.Notify.Caller.{inside, caller_woken, bump_counted, Watched, asleep-Watched, way_out}
use spscring.Varlen.Header.{load_slot_size, load_payload_size}
use spscring.Varlen.Reader.{Message, message_at}
use spscring.Varlen.Send.{Holds}
use spscring.Varlen.Threads.{
  resting, load_commit_pos, find_padding, find_message, skip, show, finds_nothing, Reading,
  ConsumerStep,
}
use spscring.Varlen.Blocking.{
  Blocking, has_slot, ProducerMove, bump_for_padding, notify, ConsumerMove, reading, waiting,
  stop_waiting, Reach, here, by_producer, by_consumer,
}
use spscring.Varlen.Blocking.Invariant.{Rests, BlockingInv, has_slot_lem, finds_slot}
use spscring.Varlen.Blocking.Moves.{ProducerMove-Inv, ConsumerMove-Inv}

Reach-BlockingInv :
    {timed : Bool} {start b : Blocking}
    → BlockingInv timed start
    → Reach timed start b
    → BlockingInv timed b
Reach-BlockingInv inv here = inv
Reach-BlockingInv {timed} inv (by_producer {b} r m) =
    ProducerMove-Inv timed b (Reach-BlockingInv inv r) m
Reach-BlockingInv {timed} inv (by_consumer {b} r m) =
    ConsumerMove-Inv timed b (Reach-BlockingInv inv r) m

-- What has become of a slot at the front with this payload size and message within so many steps:
-- the message is received behind the others, or it was padding and nothing is received; either way
-- read_pos stands at `next`. A wait that ends of itself takes one step more than either has.
pub data FrontRead (received : List Message) (payload_size : ℕ) (x : Message) (next steps : ℕ)
    (c : Blocking) : Type 0 where
  took :
      steps ≤ 8
      → c.received ≡ received ++ x ∷ []
      → c.read_pos ≡ next
      → FrontRead received payload_size x next steps c
  skipped :
      steps ≤ 7
      → payload_size ≡ 0
      → c.received ≡ received
      → c.read_pos ≡ next
      → FrontRead received payload_size x next steps c

-- The same for the slot at the front of b.
abbrev pub ReadFrom : Blocking → ℕ → Blocking → Type 0
ReadFrom b steps c =
    let at = b.read_pos % b.data_capacity in
    FrontRead b.received (load_payload_size b.bytes at) (message_at at b.segment)
      (add64 b.read_pos (load_slot_size b.bytes at)) steps c

-- A consumer at the head of its loop reads a message at the front in eight steps of its own, and
-- skips padding in seven.
read_front :
    (timed : Bool) (b : Blocking) (registered : Bool) (n : ℕ)
    → BlockingInv timed b
    → b.call ≡ inside (top registered) n
    → b.consumer ≡ resting
    → b.read_pos < b.commit_pos
    → (steps : ℕ) × (c : Blocking) × Run (ConsumerMove timed) b steps c × ReadFrom b steps c
unfolding store_commit_seq store_read_pos finds_nothing message_at
read_front timed b registered n inv e rest some_there =
    let at = b.read_pos % b.data_capacity in
    let ready : has_slot b.segment ≡ true = ground (arith, has_slot_lem b.threads inv.ring) in
    let found = finds_slot b.threads inv.ring some_there in
    let (w, out) = way_out timed (has_slot b.segment) registered b.commit_seq in
    let loaded =
      go
        (go (go (go (go stay (waiting e (stop ready))) (waiting refl out)) (stop_waiting refl))
          (reading refl (ConsumerStep.reading (Reading.load_read_pos rest))))
        (reading refl (ConsumerStep.reading (load_commit_pos b.read_pos refl))) in
    elim (ℕ_discrete (load_payload_size b.bytes at) 0) [
      | yes none_there ↦ (
        7,
        _,
        go
            (go loaded (
              reading refl (
                ConsumerStep.reading (find_padding b.read_pos b.commit_pos refl found none_there))))
            (reading refl (ConsumerStep.reading (skip b.read_pos refl))),
        skipped (omega arith) none_there refl refl,
      )
      | no message_there ↦ (
        8,
        _,
        go
            (go
              (go loaded (
                reading refl (
                  ConsumerStep.reading
                    (find_message b.read_pos b.commit_pos refl found message_there))))
              (reading refl (ConsumerStep.reading (show b.read_pos refl))))
            (reading refl (ConsumerStep.take b.read_pos _ refl)),
        took (omega arith) refl refl,
      )
    ]

module _ {timed : Bool} {start b : Blocking} (inv : BlockingInv timed start)
    (r : Reach timed start b) where
  -- From a state with the invariant, however the steps of the producer and of the blocking consumer
  -- fall while the 64-bit positions last, and each message has a payload and fits its header fields:
  -- the messages received, and then those in the ring, are the messages sent, in order and each once.
  pub blocking_messages_in_order :
      (held : List Message) × Holds b.segment held × (b.received ++ held ≡ b.sent)
  blocking_messages_in_order =
      let ring = (Reach-BlockingInv inv r).ring in (ring.held, ring.holds, ring.in_order)

  -- Under the same conditions a consumer that sleeps although a slot is committed has read that slot
  -- after at most two further steps of the producer and then steps of its own: at most eight until
  -- its message is received, or at most seven until it is skipped as padding, and read_pos stands
  -- behind the slot. Fewer than 2^31 bumps fall into its call.
  pub sleeper_reads :
      (registered : Bool) (n : ℕ)
      → b.call ≡ inside (asleep registered) n
      → n < 2 ^ 31
      → b.read_pos < b.commit_pos
      → (k m : ℕ) × (c d : Blocking) × (k ≤ 2)
        × Run ProducerMove b k c
        × Run (ConsumerMove timed) c m d
        × ReadFrom b m d
  unfolding caller_woken bump_counted wake_consumer message_at
  sleeper_reads registered n e few some_there =
      let i = Reach-BlockingInv inv r in
      let ready : has_slot b.segment ≡ true = ground (arith, has_slot_lem b.threads i.ring) in
      let rest : b.consumer ≡ resting = subst (Rests b.consumer) e i.rests in
      let lies_asleep =
        subst (Watched timed b.commit_seq (has_slot b.segment) b.bumper) e i.line.watched in
      elim (asleep-Watched timed (has_slot b.segment) b.commit_seq lies_asleep few ready) [
        | inl (at, bit) ↦ elim (i.at_bump at) [
          | inl there ↦
              let bump = ProducerMove.bump at there in
              let wake = notify (ap bumped bit) in
              let after = ProducerMove-Inv timed _ (ProducerMove-Inv timed b i bump) wake in
              let (m, d, run, read) =
                read_front timed _ registered (n + 1) after (rw e refl) rest some_there in
              (2, m, _, d, omega arith, go (go stay bump) wake, run, read)
          | inr (q, head, there) ↦
              let bump = bump_for_padding q head at there in
              let wake = notify (ap bumped bit) in
              let after = ProducerMove-Inv timed _ (ProducerMove-Inv timed b i bump) wake in
              let (m, d, run, read) =
                read_front timed _ registered (n + 1) after (rw e refl) rest some_there in
              (2, m, _, d, omega arith, go (go stay bump) wake, run, read)
        ]
        | inr at ↦
            let wake = notify at in
            let after = ProducerMove-Inv timed b i wake in
            let (m, d, run, read) =
              read_front timed _ registered n after (rw e refl) rest some_there in
            (1, m, _, d, omega arith, go stay wake, run, read)
      ]
