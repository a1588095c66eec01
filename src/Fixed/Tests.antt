-- ===== src/Fixed/Tests.antt =====
-- A ring of two slots of four bytes, run and held against the properties.
use spscring.Base.{
  ℕ, ◌≤◌, ◌<◌, ltb, if◌then◌else◌, ◌≡◌, refl, true, false, List, [], ◌∷◌, none, some, arith,
}
use spscring.Memory.{load, store}
use spscring.Control.{blank}
use spscring.View.{Segment, store_commit_pos, commit_seq_word}
use spscring.Queue.{enqueue}
use spscring.Fixed.{FixedWriter, try_read, read_from, write, read, item_count}
use spscring.Backoff.{AtomicBackoff}
use spscring.Fixed.Valid.{IsValid}
use spscring.Fixed.Contents.{contents, published, slots_from}
use spscring.Fixed.Refine.{slot_image, write_refines}
use spscring.Fixed.Run.{send, receive, Call, sent, received, run, run_queue, run_refines}

abbrev pub idle_writer : FixedWriter
idle_writer = record { reserved_end = 20; pending = false }

-- One message, 5 6 7 8, in the second slot; its positions are past the first round. A consumer waits.
abbrev pub ring : Segment
ring = record {
  header = record blank {
    rb_meta = record {
      write_pos = 16;
      read_pos = 12;
      read_wake_seq = 3;
      commit_pos = 16;
      commit_seq = 0x80000007;
    };
    data_capacity = 8;
    data_alignment = 4;
    fixed_item_size = 4;
  };
  bytes = store (store (λ _. 0) 0 (1 ∷ 2 ∷ 3 ∷ 4 ∷ [])) 4 (5 ∷ 6 ∷ 7 ∷ 8 ∷ []);
  wakes = [];
}

pub ring-IsValid : IsValid idle_writer ring
ring-IsValid = record {
  ring = omega arith;
  read_le = omega arith;
  write_le = omega arith;
  write_fits = omega arith;
  read_slot = refl;
  commit_slot = refl;
  free = λ _. refl;
  reserved = λ h. cc;
}

pub contents-ring : contents ring ≡ (5 ∷ 6 ∷ 7 ∷ 8 ∷ []) ∷ []
unfolding contents published slots_from load store
contents-ring = refl

abbrev calls : List Call
calls = send (9 ∷ 9 ∷ 9 ∷ 9 ∷ []) ∷ send (8 ∷ 8 ∷ 8 ∷ 8 ∷ []) ∷ receive ∷ receive ∷ receive ∷ []

run-ring :
    run idle_writer ring calls
    ≡ sent true
      ∷ sent false
      ∷ received (some (5 ∷ 6 ∷ 7 ∷ 8 ∷ []))
      ∷ received (some (9 ∷ 9 ∷ 9 ∷ 9 ∷ []))
      ∷ received none
      ∷ []
unfolding run write read load store
run-ring = refl

-- The write wakes the waiting consumer.
write_wakes : (write idle_writer ring (9 ∷ [])).2.wakes ≡ commit_seq_word ∷ []
unfolding write store
write_wakes = refl

write_refines_example :
    let (done, w', s') = write idle_writer ring (9 ∷ 9 ∷ []) in
    ((done, contents s') ≡ enqueue (item_count ring) (contents ring) (slot_image ring (9 ∷ 9 ∷ [])))
    × (done ≡ false → s' ≡ ring)
write_refines_example =
    write_refines idle_writer ring (9 ∷ 9 ∷ []) ring-IsValid (omega arith) refl (omega arith)

run_refines_example : run idle_writer ring calls ≡ run_queue (item_count ring) (contents ring) calls
run_refines_example =
    run_refines calls idle_writer ring ring-IsValid refl (omega arith) (omega arith)

-- The message comes with the third attempt.
abbrev late : ℕ → Segment
late i = if ltb i 2 then store_commit_pos 12 ring else ring

abbrev fresh_backoff : AtomicBackoff
fresh_backoff = record { pause_count = 0; max_pauses = 256 }

nothing_yet : (j : ℕ) → 0 ≤ j → j < 2 → try_read (late j) ≡ none
unfolding try_read read_from store_commit_pos
nothing_yet j low high = ground arith

third_finds_it : try_read (late 2) ≡ some (4, 4)
unfolding try_read read_from store_commit_pos
third_finds_it = refl
