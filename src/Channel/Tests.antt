-- ===== src/Channel/Tests.antt =====
-- One message, and a consumer that looks too early.
use spscring.Base.{◌+◌, ◌≤◌, ◌<◌, ◌≡◌, refl, [], arith, length}
use spscring.Memory.{Memory}
use spscring.Control.{init_control_block, is_valid_data_alignment}
use spscring.Fixed.{reserve_from, read_from, item_count}
use spscring.Fixed.Contents.{contents}
use spscring.Fixed.Threads.{load_write_pos, load_commit_pos, find_empty, Reserving, Reading}
use spscring.Channel.{
  Channel, finished, reserve, write_tag, commit, wake_consumer, finish_producing, try_read,
  see_done, start, Reach, here, later,
}
use spscring.Channel.Silence.{nobody_woken}
use spscring.Channel.Outcome.{channel_outcome, last_frame_missed}

abbrev zero_bytes : Memory
zero_bytes = λ _. 0

-- The consumer finds nothing; then the producer reserves the first slot and writes the tag.
abbrev raced : (c : Channel) × Reach 1 zero_bytes c
unfolding start init_control_block is_valid_data_alignment reserve_from read_from
raced = (
  _,
  later
      (later
        (later
          (later
            (later
              (later (later here (try_read refl (Reading.load_read_pos refl)))
                (try_read refl (load_commit_pos 0 refl)))
              (try_read refl (find_empty 0 0 refl refl)))
            (reserve (omega arith) (load_write_pos refl refl)))
          (reserve (omega arith) (Reserving.load_read_pos 0 refl)))
        (reserve (omega arith) (Reserving.reserve 0 0 0 _ _ refl (omega arith) refl)))
      (write_tag 0 refl refl),
)

last_frame_missed_example :
    (d : Channel) × Reach 1 zero_bytes d × (d.loop ≡ finished) × (d.drained < 1)
unfolding start init_control_block is_valid_data_alignment reserve_from read_from
last_frame_missed_example = last_frame_missed 1 (omega arith) 0 raced.1 refl refl refl refl

-- The consumer is through with nothing drained, and the frame is still in the ring.
abbrev over : (c : Channel) × Reach 1 zero_bytes c
unfolding start init_control_block is_valid_data_alignment reserve_from read_from
over = (
  _,
  later
      (later (later (later raced.1 (commit 0 refl refl)) (wake_consumer refl))
        (finish_producing refl (omega arith)))
      (see_done refl refl),
)

nothing_drained : (over.0.loop ≡ finished) × (over.0.drained ≡ 0)
unfolding start init_control_block is_valid_data_alignment reserve_from read_from
nothing_drained = (refl, refl)

channel_outcome_example :
    (over.0.mismatches ≡ 0)
    × (over.0.loop ≡ finished
        → (over.0.drained + length (contents over.0.threads.segment) ≡ 1)
          × (length (contents over.0.threads.segment) ≤ item_count over.0.threads.segment))
channel_outcome_example = channel_outcome 1 (omega arith) over.1

nobody_woken_example : (over.0.threads.wakes ≡ []) × (over.0.threads.commit_seq ≡ over.0.i)
nobody_woken_example = nobody_woken 1 (omega arith) over.1
