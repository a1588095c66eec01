-- ===== src/Notify.antt =====
-- include/spscring/notify_word.hpp: a 32-bit futex word with a waiter flag in bit 31 and a wake
-- sequence in bits 0..30.
pub mod Word
pub mod Waiting
pub mod Wakeup
pub mod Flag
pub mod Caller
pub mod Change
mod Tests
use spscring.Base.{ℕ, ◌≡◌, Bool, not, bit_and, bit_or, add32, not32, ◌==◌}

abbrev pub notify_waiter_bit : ℕ
notify_waiter_bit = 0x80000000

abbrev pub notify_seq_mask : ℕ
notify_seq_mask = 0x7FFFFFFF

unfoldable pub notify_seq_value : ℕ → ℕ
notify_seq_value raw = bit_and raw notify_seq_mask

-- The waiter bit of a word, as both sides test it.
unfoldable pub has_waiter : ℕ → Bool
has_waiter word = not (bit_and word notify_waiter_bit == 0)

-- The result of `bump_notify_word`, and the word that its fetch_add leaves.
unfoldable pub bump_notify_word : ℕ → Bool × ℕ
unfolding has_waiter
bump_notify_word word = (has_waiter word, add32 word 1)

-- The word that the waiter's fetch_or leaves, and that its fetch_and leaves on the way out.
unfoldable pub set_waiter : ℕ → ℕ
set_waiter word = bit_or word notify_waiter_bit

unfoldable pub clear_waiter : ℕ → ℕ
clear_waiter word = bit_and word (not32 notify_waiter_bit)

-- The predicate of wait_for_seq_change and of its timed overload.
unfoldable pub seq_unchanged : ℕ → ℕ → Bool
unfolding notify_seq_value
seq_unchanged last_seen word = notify_seq_value word == notify_seq_value last_seen
