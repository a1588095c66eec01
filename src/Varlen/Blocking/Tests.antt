-- ===== src/Varlen/Blocking/Tests.antt =====
-- A consumer that sleeps on an empty ring of 128 bytes, and a message that comes.
use spscring.View.{store_commit_seq, store_write_pos, store_commit_pos}
use spscring.Base.{ℕ, ◌≤◌, ◌≡◌, refl, true, false, List, [], ◌++◌, arith}
use spscring.Control.{blank}
use spscring.Memory.{load, store}
use spscring.Notify.{has_waiter, set_waiter}
use spscring.Notify.Waiting.{idle, go_on, mark, go_block, load_changed, load_same, sleep}
use spscring.Notify.Caller.{outside}
use spscring.Runs.{Run}
use spscring.Varlen.Header.{
  no_meta, load_slot_size, align_up_u32, store_header, header_bytes, meta_bytes, to_bytes,
  from_bytes,
}
use spscring.Varlen.Writer.{varlen_writer, needed_size, store_slot}
use spscring.Varlen.Reader.{Message}
use spscring.Varlen.Chain.{done}
use spscring.Varlen.Send.{Holds}
use spscring.Varlen.Threads.{
  Request, IsMessage, ProducerPc, resting, load_write_pos, Reserving, reserving, decide, needed,
  padding, finds_nothing,
}
use spscring.Varlen.Blocking.{
  Blocking, has_slot, ProducerMove, aside, ConsumerMove, start_waiting, waiting, Reach, here,
  by_producer, by_consumer,
}
use spscring.Varlen.Blocking.Invariant.{BlockingInv}
use spscring.Varlen.Blocking.Safety.{ReadFrom, blocking_messages_in_order, sleeper_reads}

abbrev empty : Blocking
empty = record {
  threads = record {
    segment = record {
      header = record blank {
        rb_meta = record {
          write_pos = 128;
          read_pos = 128;
          read_wake_seq = 3;
          commit_pos = 128;
          commit_seq = 7;
        };
        data_capacity = 128;
        data_alignment = 8;
      };
      bytes = λ _. 0;
      wakes = [];
    };
    writer = varlen_writer;
    producer = ProducerPc.idle;
    consumer = resting;
    sent = [];
    received = [];
  };
  call = outside;
  bumper = idle;
}

empty-BlockingInv : BlockingInv false empty
empty-BlockingInv = record {
  ring = record {
    fronts = record {
      alignment = (3, omega arith, refl);
      word = omega arith;
      room = omega arith;
      aligned = refl;
      commit_slot = refl;
      read_le = omega arith;
      commit_le = omega arith;
      write_le = omega arith;
      small = omega arith;
    };
    producer_knows = (refl, refl);
    consumer_knows = tt;
    held = [];
    holds = done refl;
    in_order = refl;
  };
  line = record { fits = omega arith; watched = tt };
  at_bump = λ h. cc;
  rests = tt;
}

-- The first round sets the flag, and the second sleeps on it.
abbrev consumer_sleeps : (b : Blocking) × Reach false empty b
unfolding has_slot finds_nothing has_waiter set_waiter store_commit_seq
consumer_sleeps = (
  _,
  by_consumer
      (by_consumer
        (by_consumer
          (by_consumer
            (by_consumer
              (by_consumer
                (by_consumer
                  (by_consumer
                    (by_consumer (by_consumer here (start_waiting refl refl))
                      (waiting refl (go_on refl)))
                    (waiting refl mark))
                  (waiting refl (go_block refl)))
                (waiting refl (load_changed (omega arith))))
              (waiting refl (go_on refl)))
            (waiting refl mark))
          (waiting refl (go_block refl)))
        (waiting refl (load_same refl)))
      (waiting refl (sleep refl)),
)

abbrev six_bytes : Request
six_bytes = record { payload_size = 6; meta = no_meta }

six_bytes-IsMessage : IsMessage 8 six_bytes
six_bytes-IsMessage = record {
  nonempty = omega arith;
  size = omega arith;
  meta = record {
    user_data = omega arith;
    timestamp_ns = omega arith;
    schema_id = omega arith;
    flags = omega arith;
  };
}

-- Then the producer commits six bytes that it has left as they were.
abbrev message_comes : (b : Blocking) × Reach false empty b
unfolding has_slot finds_nothing has_waiter set_waiter store_commit_seq decide needed padding
    needed_size align_up_u32 store_write_pos store_slot
message_comes = (
  _,
  by_producer
      (by_producer
        (by_producer
          (by_producer
            (by_producer consumer_sleeps.1 (
              aside refl (load_write_pos six_bytes refl refl six_bytes-IsMessage (omega arith)) refl
                refl))
            (aside refl (reserving (Reserving.load_read_pos six_bytes 128 refl)) refl refl))
          (aside refl
            (reserving (Reserving.win_slot six_bytes 128 128 refl refl refl (omega arith))) refl
            refl))
        (aside refl (reserving (Reserving.store_header six_bytes 128 refl)) refl refl))
      (ProducerMove.commit six_bytes 128 refl refl),
)

sleeper_reads_example :
    (k m : ℕ) × (c d : Blocking) × (k ≤ 2)
    × Run ProducerMove message_comes.0 k c
    × Run (ConsumerMove false) c m d
    × ReadFrom message_comes.0 m d
unfolding has_slot finds_nothing has_waiter set_waiter store_commit_seq decide needed padding
    needed_size align_up_u32 store_write_pos store_slot store_commit_pos load_slot_size load store
    store_header header_bytes meta_bytes to_bytes from_bytes
sleeper_reads_example =
    sleeper_reads empty-BlockingInv message_comes.1 true 0 refl (omega arith) (omega arith)

blocking_messages_in_order_example :
    (held : List Message) × Holds message_comes.0.segment held
    × (message_comes.0.received ++ held ≡ message_comes.0.sent)
unfolding has_slot finds_nothing has_waiter set_waiter store_commit_seq decide needed padding
    needed_size align_up_u32 store_write_pos store_slot
blocking_messages_in_order_example = blocking_messages_in_order empty-BlockingInv message_comes.1
