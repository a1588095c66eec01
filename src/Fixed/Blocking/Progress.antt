-- ===== src/Fixed/Blocking/Progress.antt =====
-- What a woken side gets done.
use mathlib.Core.Path.{subst}
use spscring.View.{store_commit_seq, store_read_wake_seq, wake_consumer, wake_producer}
use spscring.Base.{
  ℕ, ◌+◌, ◌%◌, ◌^◌, ◌≤◌, ◌<◌, ◌≡◌, refl, ap, inl, inr, u64_mod, Bool, true, [], ◌∷◌, ◌++◌, some,
  u32, arith,
}
use spscring.Notify.Waiting.{top, asleep, idle, bumped, stop}
use spscring.Notify.Caller.{way_out, inside, caller_woken, bump_counted}
use spscring.Fixed.{read_from}
use spscring.Fixed.Threads.{
  resting, ProducerPc, filling, load_write_pos, Reserving, load_commit_pos, find_slot, Reading,
}
use spscring.Fixed.Threads.Sides.{oldest}
use spscring.Fixed.Threads.Invariant.{producer_at}
use spscring.Fixed.Threads.Producer.{reserve_from-ok}
use spscring.Runs.{Run, stay, go}
use spscring.Fixed.Blocking.{
  Blocking, has_message, has_room, reserving, ProducerStep, ConsumerStep, reading, looking,
  giving_back, Reach,
}
use spscring.Fixed.Blocking.Invariant.{
  BlockingInv, ProducerRests, ConsumerRests, has_message_lem, has_room_lem, store_read_wake_seq-Inv,
}
use spscring.Fixed.Blocking.Consumer.{ConsumerStep-Inv}
use spscring.Fixed.Blocking.Safety.{Reach-BlockingInv, consumer_asleep, producer_asleep}

module _ (timed : Bool) (b : Blocking) where
  -- A consumer at the head of its loop receives the oldest message in eight steps of its own.
  receive :
      (registered : Bool) (n : ℕ)
      → b.consumer_call ≡ inside (top registered) n
      → b.consumer ≡ resting
      → b.read_bumper ≡ idle
      → b.read_pos < b.commit_pos
      → (c : Blocking) × Run (ConsumerStep timed) b 8 c
        × (c.received ≡ b.received ++ oldest b.segment ∷ [])
  unfolding store_commit_seq read_from
  receive registered n e rest quiet some_there =
      let ready : has_message b.segment ≡ true = ground (arith, has_message_lem b.segment) in
      let (w, out) = way_out timed (has_message b.segment) registered b.commit_seq in
      let found : read_from b.read_pos b.commit_pos b.segment
          ≡ some (b.read_pos % b.data_capacity, u32 b.fixed_item_size) =
        ground arith in
      (
        _,
        go
            (go
              (go
                (go
                  (go
                    (go
                      (go (go stay (ConsumerStep.waiting e (stop ready)))
                        (ConsumerStep.waiting refl out))
                      (ConsumerStep.stop_waiting refl))
                    (reading refl quiet (Reading.load_read_pos rest)))
                  (reading refl quiet (load_commit_pos b.read_pos refl)))
                (reading refl quiet (
                  find_slot b.read_pos b.commit_pos (b.read_pos % b.data_capacity)
                    (u32 b.fixed_item_size) refl found)))
              (looking (b.read_pos % b.data_capacity) refl refl))
            (giving_back (b.read_pos % b.data_capacity) _ refl quiet refl),
        refl,
      )

  -- A producer at the head of its loop gets a slot in six steps of its own.
  reserve :
      (registered : Bool) (n : ℕ)
      → BlockingInv timed b
      → b.producer_call ≡ inside (top registered) n
      → b.producer ≡ ProducerPc.idle
      → b.commit_bumper ≡ idle
      → b.write_pos < b.read_pos + b.data_capacity
      → b.write_pos + b.fixed_item_size < u64_mod
      → (c : Blocking) × Run (ProducerStep timed) b 6 c
        × (c.producer ≡ filling (b.write_pos % b.data_capacity))
  unfolding store_read_wake_seq
  reserve registered n inv e rest quiet room head =
      let v = inv.ring.valid in
      let free = producer_at b.threads inv.ring rest in
      let ready : has_room b.segment ≡ true = ground (arith, has_room_lem b.writer b.segment v) in
      let (w, out) = way_out timed (has_room b.segment) registered b.read_wake_seq in
      let found =
        reserve_from-ok b.writer (store_read_wake_seq w b.segment)
          (store_read_wake_seq-Inv w b.threads inv.ring).valid b.read_pos (omega arith) v.write_le
          room head in
      (
        _,
        go
            (go
              (go
                (go
                  (go (go stay (ProducerStep.waiting e (stop ready)))
                    (ProducerStep.waiting refl out))
                  (ProducerStep.stop_waiting refl))
                (reserving refl quiet (load_write_pos rest free)))
              (reserving refl quiet (Reserving.load_read_pos b.write_pos refl)))
            (reserving refl quiet (Reserving.reserve b.write_pos b.read_pos _ _ _ refl head found)),
        refl,
      )

module _ {timed : Bool} {start b : Blocking} (inv : BlockingInv timed start)
    (r : Reach timed start b) where
  -- From a state with the invariant: a consumer that sleeps although a message is in the ring has
  -- received it after at most two further steps of the producer and then eight of its own, if fewer
  -- than 2^31 bumps fall into its call.
  pub sleeper_receives :
      (registered : Bool) (n : ℕ)
      → b.consumer_call ≡ inside (asleep registered) n
      → n < 2 ^ 31
      → b.read_pos < b.commit_pos
      → (steps : ℕ) × (c d : Blocking) × (steps ≤ 2)
        × Run (ProducerStep timed) b steps c
        × Run (ConsumerStep timed) c 8 d
        × (d.received ≡ b.received ++ oldest b.segment ∷ [])
  unfolding caller_woken bump_counted wake_consumer
  sleeper_receives registered n e few some_there =
      let i = Reach-BlockingInv inv r in
      let (rest, quiet) = subst (ConsumerRests b.consumer b.read_bumper) e i.consumer_place.rests in
      elim (consumer_asleep inv r registered n e few some_there) [
        | inl (at, bit) ↦
            let run =
              go (go stay (ProducerStep.bumping at)) (ProducerStep.notifying (ap bumped bit)) in
            let (d, more, got) =
              receive timed _ registered (n + 1) (rw e refl) rest quiet some_there in
            (2, _, d, omega arith, run, more, got)
        | inr at ↦
            let run = go stay (ProducerStep.notifying at) in
            let (d, more, got) = receive timed _ registered n (rw e refl) rest quiet some_there in
            (1, _, d, omega arith, run, more, got)
      ]

  -- Likewise a producer that sleeps although the ring has room has reserved a slot after at most two
  -- further steps of the consumer and then six of its own, if the 64-bit positions last.
  pub sleeper_reserves :
      (registered : Bool) (n : ℕ)
      → b.producer_call ≡ inside (asleep registered) n
      → n < 2 ^ 31
      → b.write_pos < b.read_pos + b.data_capacity
      → b.write_pos + b.fixed_item_size < u64_mod
      → (steps : ℕ) × (c d : Blocking) × (steps ≤ 2)
        × Run (ConsumerStep timed) b steps c
        × Run (ProducerStep timed) c 6 d
        × (d.producer ≡ filling (b.write_pos % b.data_capacity))
  unfolding caller_woken bump_counted wake_producer
  sleeper_reserves registered n e few room head =
      let i = Reach-BlockingInv inv r in
      let (rest, quiet) =
        subst (ProducerRests b.producer b.commit_bumper) e i.producer_place.rests in
      elim (producer_asleep inv r registered n e few room) [
        | inl (at, bit) ↦
            let bump = ConsumerStep.bumping at in
            let wake = ConsumerStep.notifying (ap bumped bit) in
            let after = ConsumerStep-Inv timed _ (ConsumerStep-Inv timed b i bump) wake in
            let (d, more, got) =
              reserve timed _ registered (n + 1) after (rw e refl) rest quiet room head in
            (2, _, d, omega arith, go (go stay bump) wake, more, got)
        | inr at ↦
            let wake = ConsumerStep.notifying at in
            let after = ConsumerStep-Inv timed b i wake in
            let (d, more, got) =
              reserve timed _ registered n after (rw e refl) rest quiet room head in
            (1, _, d, omega arith, go stay wake, more, got)
      ]
