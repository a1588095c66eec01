-- ===== src/Notify/Change.antt =====
-- wait_for_seq_change: when its predicate turns false.
use spscring.Base.{ℕ, ◌+◌, ◌%◌, ◌^◌, ◌<◌, ◌≡◌, Bool, ◌==◌, u32_mod, arith}
use spscring.Notify.{notify_seq_value, seq_unchanged}
use spscring.Notify.Word.{bump_notify_word_lem, waiter_flag_lem, notify_seq_value-eq-mod}
use spscring.Notify.Waiting.{
  Wait, stop, go_on, mark, stop_again, go_block, expire, load_changed, load_same, refuse, sleep,
  wake_early, clear, keep, System, wait, publish, bump, notify, skip, Reach, start, later, WaiterPc,
}

-- The sequence in the word is n.
abbrev Counts : ℕ → ℕ → Type 0
Counts word n = (word < u32_mod) × (notify_seq_value word ≡ n % 2 ^ 31)

Wait-Counts :
    (n : ℕ) {timed ready : Bool} {word word' : ℕ} {p q : WaiterPc}
    → Wait timed word ready p word' q
    → Counts word n
    → Counts word' n
Wait-Counts n (stop _) h = h
Wait-Counts n (go_on _) h = h
Wait-Counts n {word = word} mark (small, h) = ground (arith, waiter_flag_lem word small)
Wait-Counts n (stop_again _) h = h
Wait-Counts n (go_block _) h = h
Wait-Counts n (expire _) h = h
Wait-Counts n (load_changed _) h = h
Wait-Counts n (load_same _) h = h
Wait-Counts n (refuse _) h = h
Wait-Counts n (sleep _) h = h
Wait-Counts n wake_early h = h
Wait-Counts n {word = word} clear (small, h) = ground (arith, waiter_flag_lem word small)
Wait-Counts n keep h = h

Reach-Counts :
    {timed : Bool} {word : ℕ} {s : System}
    → Reach timed word s
    → word < u32_mod
    → Counts s.word (notify_seq_value word + s.bumps)
Reach-Counts {word = word} (start ready bumper) small =
    (small, omega (arith, notify_seq_value-eq-mod word))
Reach-Counts {word = word} (later {s} r (wait m)) small =
    Wait-Counts (notify_seq_value word + s.bumps) m (Reach-Counts r small)
Reach-Counts (later r (publish now e)) small = Reach-Counts r small
Reach-Counts (later {s} r (bump now e)) small =
    let (fits, n) = Reach-Counts r small in
    let (wake, fits', n', flag) = bump_notify_word_lem s.word fits in (fits', omega (arith, n, n'))
Reach-Counts (later r (notify e)) small = Reach-Counts r small
Reach-Counts (later r (skip e)) small = Reach-Counts r small

-- In a call of wait_for_seq_change that starts at the word which it was given, the predicate holds
-- exactly if the number of bumps since is a multiple of 2^31, whatever the waiter bit was, and
-- whoever has set or cleared it.
pub seq_unchanged_iff :
    {timed : Bool} {word : ℕ} {s : System}
    → Reach timed word s
    → word < u32_mod
    → seq_unchanged word s.word ≡ (s.bumps % 2 ^ 31 == 0)
unfolding seq_unchanged
seq_unchanged_iff {word = word} r small =
    let (fits, n) = Reach-Counts r small in ground (arith, n, notify_seq_value-eq-mod word)
