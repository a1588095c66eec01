-- ===== src/Fixed/Blocking/Tests.antt =====
-- A consumer that sleeps on an empty ring of two slots, and a producer that sleeps on a full one.
use spscring.View.{store_commit_seq, store_read_wake_seq, Segment, store_commit_pos, store_read_pos}
use spscring.Base.{
  u64_mod, ◌%◌, ℕ, ◌+◌, ◌≤◌, ◌<◌, ◌≡◌, refl, true, false, List, [], ◌∷◌, ◌++◌, length, arith,
}
use spscring.Control.{blank}
use spscring.Notify.{has_waiter, set_waiter}
use spscring.Notify.Waiting.{asleep, idle, go_on, mark, go_block, load_changed, load_same, sleep}
use spscring.Notify.Caller.{outside, inside}
use spscring.Memory.{load}
use spscring.Fixed.{reserve_from, read_from, ring_is_full, item_count, fill}
use spscring.Fixed.Contents.{contents, published, slots_from}
use spscring.Fixed.Threads.{
  ProducerPc, filling, resting, load_write_pos, Reserving, Reading, load_commit_pos, find_slot,
}
use spscring.Fixed.Threads.Sides.{oldest}
use spscring.Fixed.Blocking.{
  Blocking, has_message, has_room, ProducerStep, ConsumerStep, produce, consume, reserving,
  filling_in, committing, reading, looking, giving_back, Reach, here, later,
}
use spscring.Fixed.Blocking.Invariant.{BlockingInv}
use spscring.Fixed.Blocking.Safety.{blocking_in_order, not_both_asleep}
use spscring.Runs.{Run}
use spscring.Fixed.Blocking.Progress.{sleeper_receives, sleeper_reserves}

abbrev segment_at : ℕ → ℕ → Segment
segment_at write read = record {
  header = record blank {
    rb_meta = record {
      write_pos = write;
      read_pos = read;
      read_wake_seq = 3;
      commit_pos = write;
      commit_seq = 7;
    };
    data_capacity = 8;
    data_alignment = 4;
    fixed_item_size = 4;
  };
  bytes = λ i. i;
  wakes = [];
}

abbrev blocking_at : ℕ → ℕ → List (List ℕ) → Blocking
blocking_at write read sent = record {
  threads = record {
    segment = segment_at write read;
    writer = record { reserved_end = 0; pending = false };
    producer = ProducerPc.idle;
    consumer = resting;
    sent = sent;
    received = [];
  };
  producer_call = outside;
  consumer_call = outside;
  commit_bumper = idle;
  read_bumper = idle;
}

abbrev empty : Blocking
empty = blocking_at 16 16 []

abbrev full : Blocking
full = blocking_at 24 16 ((0 ∷ 1 ∷ 2 ∷ 3 ∷ []) ∷ (4 ∷ 5 ∷ 6 ∷ 7 ∷ []) ∷ [])

-- Two idle sides around a ring, at slot boundaries and within a round.
start-BlockingInv :
    (write read : ℕ) (sent : List (List ℕ))
    → read ≤ write
    → write ≤ read + 8
    → write < u64_mod
    → read % 4 ≡ 0
    → write % 4 ≡ 0
    → contents (segment_at write read) ≡ sent
    → BlockingInv false (blocking_at write read sent)
start-BlockingInv write read sent below within fits read_slot write_slot holds = record {
  ring = record {
    valid = record {
      ring = omega arith;
      read_le = below;
      write_le = within;
      write_fits = fits;
      read_slot = read_slot;
      commit_slot = write_slot;
      free = λ _. refl;
      reserved = λ h. cc;
    };
    producer_knows = refl;
    consumer_knows = tt;
    in_order = holds;
  };
  commit_line = record { fits = omega arith; watched = tt };
  read_line = record { fits = omega arith; watched = tt };
  producer_place = record { at_publish = λ h. cc; rests = tt };
  consumer_place = record { at_advance = λ h. cc; rests = tt };
}

empty-BlockingInv : BlockingInv false empty
unfolding contents published slots_from
empty-BlockingInv =
    start-BlockingInv 16 16 [] (omega arith) (omega arith) (omega arith) refl refl refl

full-BlockingInv : BlockingInv false full
unfolding contents published slots_from load
full-BlockingInv =
    start-BlockingInv 24 16 full.sent (omega arith) (omega arith) (omega arith) refl refl refl

-- The first round sets the flag, and the second sleeps on it.
abbrev consumer_sleeps : (b : Blocking) × Reach false empty b
unfolding has_message read_from has_waiter set_waiter store_commit_seq
consumer_sleeps = (
  _,
  later
      (later
        (later
          (later
            (later
              (later
                (later
                  (later
                    (later (later here (consume (ConsumerStep.start_waiting refl refl refl)))
                      (consume (ConsumerStep.waiting refl (go_on refl))))
                    (consume (ConsumerStep.waiting refl mark)))
                  (consume (ConsumerStep.waiting refl (go_block refl))))
                (consume (ConsumerStep.waiting refl (load_changed (omega arith)))))
              (consume (ConsumerStep.waiting refl (go_on refl))))
            (consume (ConsumerStep.waiting refl mark)))
          (consume (ConsumerStep.waiting refl (go_block refl))))
        (consume (ConsumerStep.waiting refl (load_same refl))))
      (consume (ConsumerStep.waiting refl (sleep refl))),
)

-- Then a message comes.
abbrev message_comes : (b : Blocking) × Reach false empty b
unfolding reserve_from has_message read_from has_waiter set_waiter store_commit_seq
message_comes = (
  _,
  later
      (later
        (later
          (later
            (later consumer_sleeps.1 (produce (reserving refl refl (load_write_pos refl refl))))
            (produce (reserving refl refl (Reserving.load_read_pos 16 refl))))
          (produce (reserving refl refl (Reserving.reserve 16 16 0 _ _ refl (omega arith) refl))))
        (produce (filling_in 0 (9 ∷ 9 ∷ []) refl refl (omega arith))))
      (produce (committing 0 refl refl refl)),
)

sleeper_receives_example :
    (steps : ℕ) × (c d : Blocking) × (steps ≤ 2)
    × Run (ProducerStep false) message_comes.0 steps c
    × Run (ConsumerStep false) c 8 d
    × (d.received ≡ [] ++ oldest message_comes.0.segment ∷ [])
unfolding reserve_from has_message read_from has_waiter set_waiter store_commit_seq store_commit_pos
    fill
sleeper_receives_example =
    sleeper_receives empty-BlockingInv message_comes.1 true 0 refl (omega arith) (omega arith)

blocking_in_order_example :
    (message_comes.0.received ++ contents message_comes.0.segment ≡ message_comes.0.sent)
    × (length (contents message_comes.0.segment) ≤ item_count message_comes.0.segment)
unfolding reserve_from has_message read_from has_waiter set_waiter store_commit_seq
blocking_in_order_example = blocking_in_order empty-BlockingInv message_comes.1

not_both_asleep_example : ¬ (
    (consumer_sleeps.0.producer_call ≡ inside (asleep true) 0)
    × (consumer_sleeps.0.consumer_call ≡ inside (asleep true) 0))
unfolding has_message read_from has_waiter set_waiter store_commit_seq
not_both_asleep_example =
    not_both_asleep empty-BlockingInv consumer_sleeps.1 true true 0 0 (omega arith) (omega arith)

abbrev producer_sleeps : (b : Blocking) × Reach false full b
unfolding has_room ring_is_full has_waiter set_waiter store_read_wake_seq
producer_sleeps = (
  _,
  later
      (later
        (later
          (later
            (later
              (later
                (later
                  (later
                    (later (later here (produce (ProducerStep.start_waiting refl refl refl)))
                      (produce (ProducerStep.waiting refl (go_on refl))))
                    (produce (ProducerStep.waiting refl mark)))
                  (produce (ProducerStep.waiting refl (go_block refl))))
                (produce (ProducerStep.waiting refl (load_changed (omega arith)))))
              (produce (ProducerStep.waiting refl (go_on refl))))
            (produce (ProducerStep.waiting refl mark)))
          (produce (ProducerStep.waiting refl (go_block refl))))
        (produce (ProducerStep.waiting refl (load_same refl))))
      (produce (ProducerStep.waiting refl (sleep refl))),
)

-- Then the consumer gives a slot back.
abbrev slot_comes : (b : Blocking) × Reach false full b
unfolding has_room ring_is_full has_waiter set_waiter store_read_wake_seq read_from
slot_comes = (
  _,
  later
      (later
        (later
          (later
            (later producer_sleeps.1 (consume (reading refl refl (Reading.load_read_pos refl))))
            (consume (reading refl refl (load_commit_pos 16 refl))))
          (consume (reading refl refl (find_slot 16 24 0 4 refl refl))))
        (consume (looking 0 refl refl)))
      (consume (giving_back 0 _ refl refl refl)),
)

sleeper_reserves_example :
    (steps : ℕ) × (c d : Blocking) × (steps ≤ 2)
    × Run (ConsumerStep false) slot_comes.0 steps c
    × Run (ProducerStep false) c 6 d
    × (d.producer ≡ filling (slot_comes.0.write_pos % slot_comes.0.data_capacity))
unfolding has_room ring_is_full has_waiter set_waiter store_read_wake_seq read_from store_read_pos
sleeper_reserves_example =
    sleeper_reserves full-BlockingInv slot_comes.1 true 0 refl (omega arith) (omega arith)
      (omega arith)
