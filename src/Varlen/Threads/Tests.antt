-- ===== src/Varlen/Threads/Tests.antt =====
-- The two threads of the ring of Varlen/Tests, interleaved.
use spscring.Base.{◌+◌, ◌%◌, ◌≤◌, ◌≡◌, ◌⊎◌, refl, List, [], ◌∷◌, ◌++◌, arith}
use spscring.Varlen.Header.{
  no_meta, load_slot_size, load_payload_size, align_up_u32, store_header, header_bytes, meta_bytes,
  to_bytes, from_bytes,
}
use spscring.Memory.{load, store}
use spscring.View.{store_write_pos}
use spscring.Varlen.Writer.{varlen_writer, needed_size, store_slot}
use spscring.Varlen.Reader.{Message}
use spscring.Varlen.Send.{Holds}
use spscring.Varlen.Tests.{ring, ring-Holds, first_message}
use spscring.Varlen.Threads.{
  Request, idle, resting, Threads, IsMessage, load_write_pos, Reserving, Reading, reserving,
  reading, win_padding, store_padding, at_head, load_commit_pos, find_message, show, Reach, here,
  by_producer, by_consumer, decide, needed, padding, finds_nothing,
}
use spscring.Varlen.Threads.Invariant.{Inv}
use spscring.Varlen.Threads.Reached.{ProducerStep-Inv}
use spscring.Varlen.Threads.Progress.{accesses_left, Call, start, own, other, try_reserve_ends}
use spscring.Varlen.Threads.Safety.{messages_in_order, stores_apart}

abbrev both_idle : Threads
both_idle = record {
  segment = ring;
  writer = varlen_writer;
  producer = idle;
  consumer = resting;
  sent = first_message ∷ [];
  received = [];
}

both_idle-Inv : Inv both_idle
both_idle-Inv = record {
  fronts = record {
    alignment = (3, omega arith, refl);
    word = omega arith;
    room = omega arith;
    aligned = refl;
    commit_slot = refl;
    read_le = omega arith;
    commit_le = omega arith;
    write_le = omega arith;
    small = omega arith;
  };
  producer_knows = (refl, refl);
  consumer_knows = tt;
  held = first_message ∷ [];
  holds = ring-Holds;
  in_order = refl;
}

abbrev six_bytes : Request
six_bytes = record { payload_size = 6; meta = no_meta }

six_bytes-IsMessage : IsMessage 8 six_bytes
six_bytes-IsMessage = record {
  nonempty = omega arith;
  size = omega arith;
  meta = record {
    user_data = omega arith;
    timestamp_ns = omega arith;
    schema_id = omega arith;
    flags = omega arith;
  };
}

twenty_there : load_payload_size ring.bytes (40 % 128) ≡ 20
unfolding load_payload_size load store store_header header_bytes meta_bytes to_bytes from_bytes
twenty_there = refl

-- While the consumer looks at the message before the end of the region, the producer, who wants
-- more than the 32 bytes behind it, is about to write a padding slot there.
abbrev both_at_work : (t : Threads) × Reach both_idle t
unfolding decide needed padding finds_nothing needed_size align_up_u32 load_slot_size load store
    store_header header_bytes to_bytes from_bytes
both_at_work = (
  _,
  by_consumer
      (by_producer
        (by_consumer
          (by_consumer
            (by_producer
              (by_producer (by_consumer here (reading (Reading.load_read_pos refl)))
                (load_write_pos six_bytes refl refl six_bytes-IsMessage (omega arith)))
              (reserving (Reserving.load_read_pos six_bytes 96 refl)))
            (reading (load_commit_pos 40 refl)))
          (reading (find_message 40 96 refl refl (λ e. omega (arith, e, twenty_there)))))
        (reserving (win_padding six_bytes 96 40 refl refl refl (omega arith))))
      (reading (show 40 refl)),
)

messages_in_order_example :
    (held : List Message) × Holds both_at_work.0.segment held
    × (both_at_work.0.received ++ held ≡ both_at_work.0.sent)
messages_in_order_example = messages_in_order both_idle-Inv both_at_work.1

stores_apart_example :
    ((96 + 32 ≤ 40) ⊎ (40 + 56 ≤ 96))
    × (40 + 56 ≤ both_at_work.0.data_capacity)
    × (32 ≤ both_at_work.0.data_alignment → 96 + 32 ≤ both_at_work.0.data_capacity)
unfolding load_slot_size load store store_header header_bytes meta_bytes to_bytes from_bytes
    both_at_work store_write_pos
stores_apart_example = stores_apart both_idle-Inv both_at_work.1 96 32 40 56 refl refl

-- A try_reserve that has loaded write_pos, and its way to the padding slot.
abbrev reserving_six : Threads
reserving_six = record both_idle { producer = at_head six_bytes 96 }

reserving_six-Inv : Inv reserving_six
unfolding needed align_up_u32
reserving_six-Inv =
    ProducerStep-Inv (load_write_pos six_bytes refl refl six_bytes-IsMessage (omega arith))
      both_idle-Inv

abbrev three_accesses : (t : Threads) × Call reserving_six 3 t
unfolding decide needed padding needed_size align_up_u32
three_accesses = (
  _,
  own
      (own
        (other (own start (Reserving.load_read_pos six_bytes 96 refl))
          (reading (Reading.load_read_pos refl)))
        (win_padding six_bytes 96 40 refl refl refl (omega arith)))
      (store_padding six_bytes 96 refl),
)

try_reserve_ends_example :
    (3 ≤ 8)
    × ((accesses_left three_accesses.0.data_capacity three_accesses.0.producer ≡ 0)
        ⊎ ((v : Threads) × Reserving three_accesses.0 v))
unfolding decide needed padding needed_size align_up_u32 store_write_pos store_slot
try_reserve_ends_example = try_reserve_ends reserving_six-Inv refl (omega arith) three_accesses.1
