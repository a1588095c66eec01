-- ===== src/VarlenChannel/Tests.antt =====
-- One message, and a consumer that looks too early.
use spscring.Base.{inl, ◌+◌, ◌≡◌, refl, arith, length, List, false}
use spscring.Memory.{Memory}
use spscring.Control.{init_control_block, is_valid_data_alignment}
use spscring.View.{store_write_pos}
use spscring.Varlen.Header.{align_up_u32}
use spscring.Varlen.Writer.{needed_size}
use spscring.Varlen.Reader.{Message}
use spscring.Varlen.Send.{Holds}
use spscring.Varlen.Threads.{
  needed, padding, decide, finds_nothing, load_commit_pos, find_nothing, Reserving, Reading,
  win_slot,
}
use spscring.VarlenChannel.{
  Channel, finished, request_of, start, begin_reserve, reserve, fill, commit, wake_consumer,
  finish_producing, read, read_nothing, see_done, Reach, here, later,
}
use spscring.VarlenChannel.Outcome.{messages_outcome}

abbrev zero_bytes : Memory
zero_bytes = λ _. 0

-- The consumer finds nothing; then the producer sends the message, and the consumer ends its loop.
abbrev over : (c : Channel) × Reach 1 zero_bytes c
unfolding start init_control_block is_valid_data_alignment decide needed padding finds_nothing
    needed_size align_up_u32 store_write_pos
over = (
  _,
  later
      (later
        (later
          (later
            (later
              (later
                (later
                  (later
                    (later
                      (later
                        (later (later here (read refl (Reading.load_read_pos refl) (λ e. cc)))
                          (read refl (load_commit_pos 0 refl) (λ e. cc)))
                        (read_nothing refl (find_nothing 0 0 refl refl) refl))
                      (begin_reserve (omega arith) refl refl refl (omega arith)))
                    (reserve (Reserving.load_read_pos (request_of 0) 0 refl)))
                  (reserve (win_slot (request_of 0) 0 0 refl refl refl (omega arith))))
                (reserve (Reserving.store_header (request_of 0) 0 refl)))
              (fill (request_of 0) 0 refl refl))
            (commit (request_of 0) 0 refl refl))
          (wake_consumer refl))
        (finish_producing refl (inl (omega arith))))
      (see_done refl refl),
)

nothing_drained : (over.0.loop ≡ finished) × (over.0.drained ≡ 0)
unfolding over
nothing_drained = (refl, refl)

messages_outcome_example :
    (over.0.broken ≡ false)
    × (over.0.mismatches ≡ 0)
    × (over.0.loop ≡ finished
        → (held : List Message) × Holds over.0.threads.segment held
          × (over.0.drained + length held ≡ 1))
messages_outcome_example = messages_outcome 1 (omega arith) over.1
