-- ===== src/Notify/Word.antt =====
-- What the bit operations on a notify word do to its two parts.
use spscring.Base.{
  ℕ, ◌+◌, ◌%◌, ◌^◌, ◌<◌, ◌≡◌, true, false, not, bit_and_mask, bit_and_high_bits, bit_or_bit,
  u32_mod, add32, leb, ◌==◌, if◌then◌else◌, arith,
}
use spscring.Notify.{
  notify_seq_value, has_waiter, bump_notify_word, set_waiter, clear_waiter, notify_waiter_bit,
  notify_seq_mask,
}

pub notify_seq_value-eq-mod : (w : ℕ) → notify_seq_value w ≡ w % 2 ^ 31
unfolding notify_seq_value
notify_seq_value-eq-mod w = bit_and_mask 31 w

pub has_waiter_iff : (w : ℕ) → w < u32_mod → has_waiter w ≡ leb notify_waiter_bit w
unfolding has_waiter
has_waiter_iff w h = ground (arith, bit_and_high_bits 1 31 w)

pub set_waiter_lem : (w : ℕ) → w < u32_mod → set_waiter w ≡ w % 2 ^ 31 + 2 ^ 31
unfolding set_waiter
set_waiter_lem w h = ground (arith, bit_or_bit 31 w)

pub clear_waiter_lem : (w : ℕ) → clear_waiter w ≡ w % 2 ^ 31
unfolding clear_waiter
clear_waiter_lem w = bit_and_mask 31 w

-- `bump_notify_word` reports the waiter bit of the word that it found, adds one to the wake
-- sequence modulo 2^31, and keeps the bit but for the carry out of bit 30, which flips it.
pub bump_notify_word_lem :
    (w : ℕ)
    → w < u32_mod
    → let (wake, w') = bump_notify_word w in
      (wake ≡ has_waiter w)
      × (w' < u32_mod)
      × (notify_seq_value w' ≡ (notify_seq_value w + 1) % 2 ^ 31)
      × (has_waiter w'
          ≡ (if notify_seq_value w == notify_seq_mask then not (has_waiter w) else has_waiter w))
unfolding bump_notify_word
bump_notify_word_lem w h =
    let next = add32 w 1 in
    ground (
      arith,
      notify_seq_value-eq-mod w,
      notify_seq_value-eq-mod next,
      has_waiter_iff w,
      has_waiter_iff next,
    )

-- Registering and deregistering a waiter set and clear the bit; the wake sequence stays.
pub waiter_flag_lem :
    (w : ℕ)
    → w < u32_mod
    → (has_waiter (set_waiter w) ≡ true)
      × (has_waiter (clear_waiter w) ≡ false)
      × (notify_seq_value (set_waiter w) ≡ notify_seq_value w)
      × (notify_seq_value (clear_waiter w) ≡ notify_seq_value w)
      × (set_waiter w < u32_mod)
      × (clear_waiter w < u32_mod)
waiter_flag_lem w h = ground (
  arith,
  set_waiter_lem w,
  clear_waiter_lem w,
  notify_seq_value-eq-mod w,
  notify_seq_value-eq-mod (set_waiter w),
  notify_seq_value-eq-mod (clear_waiter w),
  has_waiter_iff (set_waiter w),
  has_waiter_iff (clear_waiter w),
)
