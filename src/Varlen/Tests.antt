-- ===== src/Varlen/Tests.antt =====
-- A ring of 128 bytes with one message before its end, run and held against the properties.
use spscring.Base.{
  refl, arith, ◌<◌, ◌≡◌, ◌+◌, ℕ, List, [], ◌∷◌, Bool, true, false, ◌⊎◌, ◌≢◌, none, some, ◌==◌,
}
use spscring.Memory.{Memory, store, load, load-store}
use spscring.Control.{blank}
use spscring.View.{Segment, store_commit_pos, wake_consumer}
use spscring.Varlen.Copy.{Copied, read_into, read_into-Copied}
use spscring.Varlen.Commit.{commit_lem}
use spscring.Varlen.Reader.{Message, ReadResult, nothing, read}
use spscring.Varlen.Chain.{item, done}
use spscring.Varlen.Send.{Holds}
use spscring.Varlen.Empty.{Swallowed, write-Swallowed}
use spscring.Varlen.Deliver.{Delivered, write-Delivered}
use spscring.Varlen.Exchange.{
  IsSendable, got, Exchange, start, send, receive, Idle, Exchange-in_order,
}
use spscring.Varlen.Receive.{Received, read-Received}
use spscring.Varlen.Header.{
  header_bytes, meta_bytes, to_bytes, from_bytes, SlotHeader, varlen_slot_header_size, no_meta,
  store_header, load_slot_size, load_payload_size, load_meta, align_up_u32,
}
use spscring.Varlen.Writer.{
  VarlenWriter, commit, reserve_loop, reserve_round, varlen_writer, needed_size, try_reserve, write,
}
use spscring.Varlen.Align.{needed_size-wraps}
use spscring.Varlen.Reserved.{Reserved, try_reserve-Reserved}
use spscring.Varlen.Valid.{IsValid}
use spscring.Varlen.Reserve.{Outcome, try_reserve-Outcome}

abbrev header : SlotHeader
header = record {
  slot_size = 56;
  payload_size = 20;
  meta = record { user_data = 7; timestamp_ns = 1000; schema_id = 2; flags = 0x80000000 };
}

abbrev first_payload : List ℕ
first_payload =
    1 ∷ 2 ∷ 3 ∷ 4 ∷ 5 ∷ 6 ∷ 7 ∷ 8 ∷ 9 ∷ 10 ∷ 11 ∷ 12 ∷ 13 ∷ 14 ∷ 15 ∷ 16 ∷ 17 ∷ 18 ∷ 19 ∷ 20 ∷ []

abbrev pub first_message : Message
first_message = record { payload = first_payload; meta = header.meta }

abbrev blank_bytes : Memory
blank_bytes = λ _. 0

-- Free from byte 96 on: 32 bytes before the end of the ring, 40 behind it.
abbrev pub ring : Segment
ring = record {
  header = record blank {
    rb_meta = record {
      write_pos = 96;
      read_pos = 40;
      read_wake_seq = 3;
      commit_pos = 96;
      commit_seq = 0x80000007;
    };
    data_capacity = 128;
    data_alignment = 8;
  };
  bytes = store (store_header blank_bytes 40 header) 72 first_payload;
  wakes = [];
}

ring-IsValid : IsValid varlen_writer ring
ring-IsValid = record {
  ring = record {
    alignment = (3, omega arith, refl);
    word = omega arith;
    room = omega arith;
    aligned = refl;
  };
  read_le = omega arith;
  commit_le = omega arith;
  write_le = omega arith;
  read_slot = refl;
  commit_slot = refl;
  write_slot = refl;
  free = λ _. refl;
  reserved = λ h. cc;
}

needed_size-wraps_example : needed_size 0xfffffff0 64 < varlen_slot_header_size + 64
needed_size-wraps_example =
    needed_size-wraps 0xfffffff0 64 (6, omega arith, refl) (omega arith) (omega arith)

try_reserve-Outcome_example :
    Outcome
      (needed_size 6 8)
      6
      no_meta
      varlen_writer
      ring
      (try_reserve 6 no_meta varlen_writer ring)
try_reserve-Outcome_example =
    try_reserve-Outcome 6 no_meta varlen_writer ring ring-IsValid (omega arith) refl

try_reserve-Reserved_example :
    Reserved (needed_size 6 8) 6 no_meta (try_reserve 6 no_meta varlen_writer ring)
try_reserve-Reserved_example =
    try_reserve-Reserved 6 no_meta varlen_writer ring ring-IsValid (omega arith) refl (omega arith)
      (record {
        user_data = omega arith;
        timestamp_ns = omega arith;
        schema_id = omega arith;
        flags = omega arith;
      })

pub ring-Holds : Holds ring (first_message ∷ [])
unfolding store_header load_slot_size load_payload_size load_meta load store header_bytes meta_bytes
    to_bytes from_bytes
ring-Holds =
    item 56 first_message refl (omega arith) (omega arith) (omega arith) refl refl refl refl
      (done refl)

abbrev source : Memory
source = store blank_bytes 0 (21 ∷ 22 ∷ 23 ∷ 24 ∷ 25 ∷ 26 ∷ [])

-- The padding takes the last 32 bytes, and the message all the room behind it.
write-Delivered_example :
    Delivered
      (needed_size 6 8)
      ring
      (first_message ∷ [])
      (record { payload = 21 ∷ 22 ∷ 23 ∷ 24 ∷ 25 ∷ 26 ∷ []; meta = no_meta })
      (write 6 (some source) no_meta varlen_writer ring)
write-Delivered_example =
    write-Delivered source (21 ∷ 22 ∷ 23 ∷ 24 ∷ 25 ∷ 26 ∷ []) no_meta varlen_writer ring
      (first_message ∷ []) ring-IsValid (omega arith) refl (omega arith) (omega arith)
      (load-store blank_bytes 0 (21 ∷ 22 ∷ 23 ∷ 24 ∷ 25 ∷ 26 ∷ []))
      (record {
        user_data = omega arith;
        timestamp_ns = omega arith;
        schema_id = omega arith;
        flags = omega arith;
      })
      ring-Holds

-- A slot of 32 bytes fits before the end of the ring.
write-Swallowed_example :
    Swallowed (needed_size 0 8) ring (first_message ∷ []) (write 0 none no_meta varlen_writer ring)
write-Swallowed_example =
    write-Swallowed none no_meta varlen_writer ring (first_message ∷ []) ring-IsValid (omega arith)
      refl
      (record {
        user_data = omega arith;
        timestamp_ns = omega arith;
        schema_id = omega arith;
        flags = omega arith;
      })
      ring-Holds

-- A handler that takes messages of schema 2.
abbrev takes_schema_2 : Message → Bool
takes_schema_2 x = x.meta.schema_id == 2

read-Received_example :
    Received takes_schema_2 varlen_writer (first_message ∷ []) (read takes_schema_2 ring)
read-Received_example =
    read-Received takes_schema_2 varlen_writer ring ring-IsValid (omega arith) ring-Holds

abbrev second_message : Message
second_message = record { payload = 21 ∷ 22 ∷ 23 ∷ 24 ∷ 25 ∷ 26 ∷ []; meta = no_meta }

-- The writer and the ring after the second message has been written behind the padding.
abbrev written : VarlenWriter × Segment
written = elim (write 6 (some source) no_meta varlen_writer ring) [
  | none ↦ (varlen_writer, ring)
  | some r ↦ (r.1, r.2)
]

second_message-IsSendable : IsSendable second_message ring
second_message-IsSendable = record {
  nonempty = omega arith;
  size = omega arith;
  meta_fits = record {
    user_data = omega arith;
    timestamp_ns = omega arith;
    schema_id = omega arith;
    flags = omega arith;
  };
}

write_behind_padding :
    write 6 (some source) no_meta varlen_writer ring ≡ some (true, written.0, written.1)
unfolding write needed_size align_up_u32 reserve_loop reserve_round
write_behind_padding = refl

abbrev emptied : ReadResult × Segment
emptied = elim (read takes_schema_2 written.1) [ none ↦ (nothing, ring) | some r ↦ r ]

read_first : read takes_schema_2 written.1 ≡ some emptied
unfolding write read needed_size align_up_u32 reserve_loop reserve_round
read_first = refl

-- The second message is sent, and the first one received.
send_and_receive :
    Exchange varlen_writer ring written.0 emptied.1 (second_message ∷ []) (first_message ∷ [])
unfolding write read got needed_size align_up_u32 reserve_loop reserve_round
send_and_receive =
    receive takes_schema_2
      (send second_message source start (omega arith) second_message-IsSendable
        (load-store blank_bytes 0 second_message.payload) write_behind_padding)
      (omega arith) read_first

Exchange-in_order_example :
    (held : List Message) × (first_message ∷ held ≡ first_message ∷ second_message ∷ [])
    × Idle written.0 emptied.1 held
Exchange-in_order_example =
    Exchange-in_order (record { valid = ring-IsValid; free = refl; holds = ring-Holds })
      send_and_receive

-- The first message reserved and filled, and not yet committed.
abbrev filling : VarlenWriter
filling = record { pause_count = 0; pending = true; last_position = 40 }

abbrev varlen_writer_at_40 : VarlenWriter
varlen_writer_at_40 = record { pause_count = 0; pending = false; last_position = 40 }

abbrev uncommitted : Segment
uncommitted = store_commit_pos 40 ring

uncommitted-IsValid : IsValid filling uncommitted
unfolding store_commit_pos store_header load_slot_size load store header_bytes meta_bytes to_bytes
    from_bytes
uncommitted-IsValid = record {
  ring = record {
    alignment = (3, omega arith, refl);
    word = omega arith;
    room = omega arith;
    aligned = refl;
  };
  read_le = omega arith;
  commit_le = omega arith;
  write_le = omega arith;
  read_slot = refl;
  commit_slot = refl;
  write_slot = refl;
  free = λ h. cc;
  reserved = λ _. (refl, refl);
}

commit_lem_example :
    (((filling.pending ≡ true)
        × (40 ≡ filling.last_position)
        × (commit 40 filling uncommitted
            ≡ (varlen_writer_at_40, wake_consumer (store_commit_pos 96 uncommitted))))
      ⊎ (((filling.pending ≡ false) ⊎ (40 ≢ filling.last_position))
          × (commit 40 filling uncommitted ≡ (filling, uncommitted))))
    × IsValid (commit 40 filling uncommitted).0 (commit 40 filling uncommitted).1
unfolding store_commit_pos
commit_lem_example = commit_lem 40 filling uncommitted uncommitted-IsValid (omega arith)

read_into-Copied_example : Copied 16 varlen_writer (first_message ∷ []) (read_into true 16 ring)
read_into-Copied_example =
    read_into-Copied 16 varlen_writer ring ring-IsValid (omega arith) ring-Holds
