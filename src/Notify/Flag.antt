-- ===== src/Notify/Flag.antt =====
-- A call leaves the waiter bit as it found it.
use spscring.Base.{ℕ, ◌+◌, ◌≡◌, ◌<◌, ◌^◌, Bool, true, false, not, ◌||◌, u32_mod, arith}
use mathlib.Core.Path.{subst}
use spscring.Notify.{has_waiter, bump_notify_word, set_waiter, clear_waiter, notify_seq_value}
use spscring.Notify.Word.{set_waiter_lem, clear_waiter_lem, has_waiter_iff, notify_seq_value-eq-mod}
use spscring.Notify.Waiting.{
  WaiterPc, top, marking, rechecking, calling, blocking, asleep, leaving, returned, System, Wait,
  stop, go_on, mark, stop_again, go_block, expire, load_changed, load_same, refuse, sleep,
  wake_early, clear, keep, wake_all, wait, publish, bump, notify, skip, Reach, start, later,
}

-- The word of a call that began at `first`, after `n` bumps: with the flag if the call set it.
abbrev Kept : ℕ → ℕ → ℕ → Bool → Type 0
Kept first n word true = (has_waiter first ≡ false) × (word ≡ set_waiter first + n)
Kept first n word false = word ≡ first + n

abbrev Holds : ℕ → ℕ → ℕ → WaiterPc → Type 0
Holds first n word (top r) = Kept first n word r
Holds first n word (marking r) = Kept first n word r
Holds first n word (rechecking r m) = Kept first n word r
Holds first n word (calling r m) = Kept first n word r
Holds first n word (blocking r m) = Kept first n word r
Holds first n word (asleep r) = Kept first n word r
Holds first n word (leaving r b) = Kept first n word r
Holds first n word (returned b) = word ≡ first + n

-- `n` bumps from `first` on do not carry into the flag.
abbrev pub NoCarry : ℕ → ℕ → Type 0
NoCarry first n = notify_seq_value first + n < 2 ^ 31

module _ (first n : ℕ) (fits : first < u32_mod) (room : NoCarry first n) where
  mark-Kept :
      (r : Bool) (word : ℕ)
      → Kept first n word r
      → Kept first n (set_waiter word) (r || not (has_waiter word))
  mark-Kept true word k = ground (
    arith,
    set_waiter_lem first,
    set_waiter_lem word,
    has_waiter_iff first,
    notify_seq_value-eq-mod first,
  )
  mark-Kept false word k = ground (
    arith,
    set_waiter_lem first,
    set_waiter_lem word,
    has_waiter_iff first,
    has_waiter_iff word,
    notify_seq_value-eq-mod first,
  )

  clear-Kept : (word : ℕ) → Kept first n word true → clear_waiter word ≡ first + n
  clear-Kept word k = ground (
    arith,
    set_waiter_lem first,
    clear_waiter_lem word,
    has_waiter_iff first,
    notify_seq_value-eq-mod first,
  )

  Wait-Holds :
      {timed ready : Bool} {word w : ℕ} {p p' : WaiterPc}
      → Wait timed word ready p w p'
      → Holds first n word p
      → Holds first n w p'
  Wait-Holds {word = word} (mark {r}) k = mark-Kept r word k
  Wait-Holds {word = word} clear k = clear-Kept word k
  Wait-Holds (stop h) k = k
  Wait-Holds (go_on h) k = k
  Wait-Holds (stop_again h) k = k
  Wait-Holds (go_block h) k = k
  Wait-Holds (expire h) k = k
  Wait-Holds (load_changed h) k = k
  Wait-Holds (load_same h) k = k
  Wait-Holds (refuse h) k = k
  Wait-Holds (sleep h) k = k
  Wait-Holds wake_early k = k
  Wait-Holds keep k = k

wake_all-Holds :
    (first n word : ℕ) (p : WaiterPc) → Holds first n word p → Holds first n word (wake_all p)
unfolding wake_all
wake_all-Holds first n word (asleep r) k = k
wake_all-Holds first n word (top r) k = k
wake_all-Holds first n word (marking r) k = k
wake_all-Holds first n word (rechecking r m) k = k
wake_all-Holds first n word (calling r m) k = k
wake_all-Holds first n word (blocking r m) k = k
wake_all-Holds first n word (leaving r b) k = k
wake_all-Holds first n word (returned b) k = k

module _ (first n word : ℕ) (fits : first < u32_mod) (room : NoCarry first (n + 1)) where
  bump-Kept : (r : Bool) → Kept first n word r → Kept first (n + 1) (bump_notify_word word).1 r
  unfolding bump_notify_word
  bump-Kept true k =
      ground (arith, set_waiter_lem first, has_waiter_iff first, notify_seq_value-eq-mod first)
  bump-Kept false k = ground (arith, notify_seq_value-eq-mod first)

  bump-Holds :
      (p : WaiterPc) → Holds first n word p → Holds first (n + 1) (bump_notify_word word).1 p
  bump-Holds (returned b) k = bump-Kept false k
  bump-Holds (top r) k = bump-Kept r k
  bump-Holds (marking r) k = bump-Kept r k
  bump-Holds (rechecking r m) k = bump-Kept r k
  bump-Holds (calling r m) k = bump-Kept r k
  bump-Holds (blocking r m) k = bump-Kept r k
  bump-Holds (asleep r) k = bump-Kept r k
  bump-Holds (leaving r b) k = bump-Kept r k

Reach-Holds :
    {timed : Bool} {first : ℕ} {s : System}
    → first < u32_mod
    → Reach timed first s
    → NoCarry first s.bumps
    → Holds first s.bumps s.word s.waiter
Reach-Holds fits (start ready bumper) room = omega arith
Reach-Holds {first = first} fits (later {s} r (wait m)) room =
    Wait-Holds first s.bumps fits room m (Reach-Holds fits r room)
Reach-Holds fits (later r (publish now e)) room = Reach-Holds fits r room
Reach-Holds {first = first} fits (later {s} r (bump now e)) room =
    bump-Holds first s.bumps s.word fits room s.waiter (Reach-Holds fits r (omega arith))
Reach-Holds {first = first} fits (later {s} r (notify e)) room =
    wake_all-Holds first s.bumps s.word s.waiter (Reach-Holds fits r room)
Reach-Holds fits (later r (skip e)) room = Reach-Holds fits r room

-- A call that has returned leaves the word as it found it, but for the bumps that fell into the
-- call, if these did not carry into the flag: a flag that the call set is cleared, and one that
-- was set before stays.
pub returned-word :
    {timed : Bool} {first : ℕ} {s : System} {b : Bool}
    → first < u32_mod
    → Reach timed first s
    → NoCarry first s.bumps
    → s.waiter ≡ returned b
    → s.word ≡ first + s.bumps
returned-word {first = first} {s = s} fits r room e =
    subst (λ p. Holds first s.bumps s.word p) e (Reach-Holds fits r room)
