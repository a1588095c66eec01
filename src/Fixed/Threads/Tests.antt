-- ===== src/Fixed/Threads/Tests.antt =====
-- The two threads of the ring of Fixed/Tests, interleaved.
use spscring.Base.{◌+◌, ◌≤◌, ◌≡◌, ◌⊎◌, refl, [], ◌∷◌, ◌++◌, length, arith}
use spscring.Fixed.{reserve_from, read_from, item_count}
use spscring.Fixed.Contents.{contents}
use spscring.Fixed.Tests.{idle_writer, ring, ring-IsValid, contents-ring}
use spscring.Fixed.Threads.{
  idle, resting, Threads, load_write_pos, Reserving, Reading, load_commit_pos, find_slot, reserving,
  filling_in, reading, looking, Reach, here, later,
}
use spscring.Fixed.Threads.Invariant.{Inv}
use spscring.Fixed.Threads.Safety.{received_in_order, no_data_race}

abbrev both_idle : Threads
both_idle = record {
  segment = ring;
  writer = idle_writer;
  producer = idle;
  consumer = resting;
  sent = (5 ∷ 6 ∷ 7 ∷ 8 ∷ []) ∷ [];
  received = [];
}

both_idle-Inv : Inv both_idle
both_idle-Inv = record {
  valid = ring-IsValid;
  producer_knows = refl;
  consumer_knows = tt;
  in_order = contents-ring;
}

-- While the consumer looks at the second slot, the producer writes to the first.
abbrev both_at_work : (t : Threads) × Reach both_idle t
unfolding reserve_from read_from
both_at_work = (
  _,
  later
      (later
        (later
          (later
            (later
              (later
                (later (later here (reading (Reading.load_read_pos refl)))
                  (reserving (load_write_pos refl refl)))
                (reading (load_commit_pos 12 refl)))
              (reserving (Reserving.load_read_pos 16 refl)))
            (reserving (Reserving.reserve 16 12 0 _ _ refl (omega arith) refl)))
          (reading (find_slot 12 16 4 4 refl refl)))
        (filling_in 0 (9 ∷ 9 ∷ []) refl (omega arith)))
      (looking 4 refl),
)

no_data_race_example :
    ((0 + both_at_work.0.fixed_item_size ≤ 4) ⊎ (4 + both_at_work.0.fixed_item_size ≤ 0))
    × (0 + both_at_work.0.fixed_item_size ≤ both_at_work.0.data_capacity)
    × (4 + both_at_work.0.fixed_item_size ≤ both_at_work.0.data_capacity)
unfolding reserve_from read_from
no_data_race_example = no_data_race both_idle-Inv both_at_work.1 0 4 refl refl

received_in_order_example :
    (both_at_work.0.received ++ contents both_at_work.0.segment ≡ both_at_work.0.sent)
    × (length (contents both_at_work.0.segment) ≤ item_count both_at_work.0.segment)
received_in_order_example = received_in_order both_idle-Inv both_at_work.1
