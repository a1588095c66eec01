-- ===== src/Notify/Tests.antt =====
-- The waiting protocol on concrete runs.
use spscring.Base.{
  ◌+◌, ◌%◌, ◌^◌, ◌<◌, ◌≡◌, ◌⊎◌, refl, true, false, not, u32_mod, ◌==◌, if◌then◌else◌, arith,
}
use spscring.Notify.{
  seq_unchanged, notify_seq_value, has_waiter, bump_notify_word, set_waiter, clear_waiter,
  notify_seq_mask,
}
use spscring.Notify.Word.{bump_notify_word_lem, waiter_flag_lem}
use spscring.Notify.Waiting.{
  asleep, returned, idle, published, bumped, System, stop, go_on, mark, go_block, load_changed,
  load_same, sleep, clear, wake_all, wait, publish, bump, notify, Reach, start, later,
}
use spscring.Notify.Change.{seq_unchanged_iff}
use spscring.Notify.Wakeup.{no_lost_wakeup}
use spscring.Notify.Flag.{returned-word}

-- The word at the carry: the last sequence value, with a waiter.
bump_notify_word_lem_example :
    let (wake, w') = bump_notify_word 0xFFFFFFFF in
    (wake ≡ has_waiter 0xFFFFFFFF)
    × (w' < u32_mod)
    × (notify_seq_value w' ≡ (notify_seq_value 0xFFFFFFFF + 1) % 2 ^ 31)
    × (has_waiter w' ≡ (
        if notify_seq_value 0xFFFFFFFF == notify_seq_mask
        then not (has_waiter 0xFFFFFFFF)
        else has_waiter 0xFFFFFFFF))
bump_notify_word_lem_example = bump_notify_word_lem 0xFFFFFFFF (omega arith)

bump_clears_at_carry : bump_notify_word 0xFFFFFFFF ≡ (true, 0)
unfolding bump_notify_word
bump_clears_at_carry = refl

waiter_flag_lem_example :
    (has_waiter (set_waiter 5) ≡ true)
    × (has_waiter (clear_waiter 5) ≡ false)
    × (notify_seq_value (set_waiter 5) ≡ notify_seq_value 5)
    × (notify_seq_value (clear_waiter 5) ≡ notify_seq_value 5)
    × (set_waiter 5 < u32_mod)
    × (clear_waiter 5 < u32_mod)
waiter_flag_lem_example = waiter_flag_lem 5 (omega arith)

-- A waiter that has gone to sleep on word 5: the first round does not block, since the marked word
-- lacks the flag.
abbrev sleeper : System
sleeper = record {
  word = 0x80000005;
  ready = false;
  waiter = asleep true;
  bumper = idle;
  bumps = 0;
}

sleeper_reached : Reach false 5 sleeper
unfolding set_waiter has_waiter
sleeper_reached =
    later
      (later
        (later
          (later
            (later
              (later
                (later (later (later (start false idle) (wait (go_on refl))) (wait mark))
                  (wait (go_block refl)))
                (wait (load_changed (omega arith))))
              (wait (go_on refl)))
            (wait mark))
          (wait (go_block refl)))
        (wait (load_same refl)))
      (wait (sleep refl))

-- The producer publishes while it sleeps.
abbrev overdue : System
overdue = record sleeper { ready = true; bumper = published }

overdue_reached : Reach false 5 overdue
overdue_reached = later sleeper_reached (publish true refl)

no_lost_wakeup_example :
    ((overdue.bumper ≡ published) × ((bump_notify_word overdue.word).0 ≡ true))
    ⊎ (overdue.bumper ≡ bumped true)
no_lost_wakeup_example = no_lost_wakeup (omega arith) overdue_reached (omega arith) refl refl

-- It wakes, finds its predicate false and clears the flag; one bump has fallen into the call.
abbrev done : System
done = record { word = 6; ready = true; waiter = returned true; bumper = idle; bumps = 1 }

done_reached : Reach false 5 done
unfolding bump_notify_word clear_waiter wake_all
done_reached =
    later (later (later (later overdue_reached (bump false refl)) (notify refl)) (wait (stop refl)))
      (wait clear)

returned-word_example : done.word ≡ 5 + done.bumps
unfolding notify_seq_value
returned-word_example = returned-word (omega arith) done_reached (omega arith) refl

-- The sequence has changed after the bump.
abbrev bumped_once : (s : System) × Reach false 5 s
bumped_once = (_, later overdue_reached (bump true refl))

seq_unchanged_iff_example : seq_unchanged 5 bumped_once.0.word ≡ (bumped_once.0.bumps % 2 ^ 31 == 0)
seq_unchanged_iff_example = seq_unchanged_iff bumped_once.1 (omega arith)
