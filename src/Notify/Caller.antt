-- ===== src/Notify/Caller.antt =====
-- A thread that is now and then inside a call of `wait_on_notify_word` or its timed variant, and what
-- each event at its word means to it.
use mathlib.Core.Path.{subst}
use mathlib.Core.Bool.{or-false}
use spscring.Base.{ℕ, ◌+◌, ◌^◌, ◌<◌, ◌≡◌, ◌⊎◌, refl, Bool, true, false, ◌||◌, u32_mod, arith}
use spscring.Notify.{bump_notify_word, clear_waiter}
use spscring.Notify.Word.{waiter_flag_lem}
use spscring.Notify.Waiting.{
  WaiterPc, leaving, returned, top, asleep, BumperPc, idle, published, bumped, Wait, stop, go_on,
  mark, stop_again, go_block, expire, load_changed, load_same, refuse, sleep, wake_early, clear,
  keep, wake_all, Reach, start, later, wait, publish, bump, notify, skip,
}
use spscring.Notify.Wakeup.{no_lost_wakeup}

-- Outside, or inside with the bumps since the call began.
pub data Caller : Type 0 where
  outside : Caller
  inside : (waiter : WaiterPc) (bumps : ℕ) → Caller

unfoldable pub caller_woken : Caller → Caller
unfolding wake_all
caller_woken outside = outside
caller_woken (inside p n) = inside (wake_all p) n

unfoldable pub bump_counted : Caller → Caller
bump_counted outside = outside
bump_counted (inside p n) = inside p (n + 1)

-- The call has come from its start to where it stands.
abbrev pub Watched : Bool → ℕ → Bool → BumperPc → Caller → Type 0
Watched timed word ready bumper outside = Unit {0}
Watched timed word ready bumper (inside p n) =
    (first : ℕ) × (first < u32_mod)
    × Reach timed first
        (record { word = word; ready = ready; waiter = p; bumper = bumper; bumps = n })

pub Wait-fits :
    {timed ready : Bool} {word w : ℕ} {p p' : WaiterPc}
    → Wait timed word ready p w p'
    → word < u32_mod
    → w < u32_mod
Wait-fits (stop h) f = f
Wait-fits (go_on h) f = f
Wait-fits {word = n} mark f = ground (arith, waiter_flag_lem n f)
Wait-fits (stop_again h) f = f
Wait-fits (go_block h) f = f
Wait-fits (expire h) f = f
Wait-fits (load_changed h) f = f
Wait-fits (load_same h) f = f
Wait-fits (refuse h) f = f
Wait-fits (sleep h) f = f
Wait-fits wake_early f = f
Wait-fits {word = n} clear f = ground (arith, waiter_flag_lem n f)
Wait-fits keep f = f

or-later : (ready next : Bool) → (ready ≡ true → next ≡ true) → (ready || next) ≡ next
or-later ready next up = ground (arith, up)

module _ (timed ready : Bool) (word : ℕ) where
  pub begin-Watched :
      {bumper : BumperPc} → word < u32_mod → Watched timed word ready bumper (inside (top false) 0)
  begin-Watched {bumper} fits = (word, fits, start ready bumper)

  pub move-Watched :
      {bumper : BumperPc} {w n : ℕ} {p p' : WaiterPc}
      → Wait timed word ready p w p'
      → Watched timed word ready bumper (inside p n)
      → Watched timed w ready bumper (inside p' n)
  move-Watched m (first, fits, r) = (first, fits, later r (wait m))

  pub publish-Watched :
      (next : Bool) (c : Caller)
      → (ready ≡ true → next ≡ true)
      → Watched timed word ready idle c
      → Watched timed word next published c
  publish-Watched next outside up k = tt
  publish-Watched next (inside p n) up (first, fits, r) =
      subst (λ b. Watched timed word b published (inside p n)) (or-later ready next up)
        (first, fits, later r (publish next refl))

  pub bump-Watched :
      (c : Caller)
      → Watched timed word ready published c
      → let (wake, w) = bump_notify_word word in
        Watched timed w ready (bumped wake) (bump_counted c)
  unfolding bump_counted
  bump-Watched outside k = tt
  bump-Watched (inside p n) (first, fits, r) =
      let (wake, w) = bump_notify_word word in
      subst (λ b. Watched timed w b (bumped wake) (inside p (n + 1))) (or-false ready)
        (first, fits, later r (bump false refl))

  pub notify-Watched :
      (c : Caller)
      → Watched timed word ready (bumped true) c
      → Watched timed word ready idle (caller_woken c)
  unfolding caller_woken
  notify-Watched outside k = tt
  notify-Watched (inside p n) (first, fits, r) = (first, fits, later r (notify refl))

  pub skip-Watched :
      (c : Caller) → Watched timed word ready (bumped false) c → Watched timed word ready idle c
  skip-Watched outside k = tt
  skip-Watched (inside p n) (first, fits, r) = (first, fits, later r (skip refl))

  -- A call that sleeps although its predicate is false will be woken.
  pub asleep-Watched :
      {bumper : BumperPc} {r : Bool} {n : ℕ}
      → Watched timed word ready bumper (inside (asleep r) n)
      → n < 2 ^ 31
      → ready ≡ true
      → ((bumper ≡ published) × ((bump_notify_word word).0 ≡ true)) ⊎ (bumper ≡ bumped true)
  asleep-Watched (first, fits, reach) few done = no_lost_wakeup fits reach few refl done

-- A word, with the thread that may block on it.
pub record Line (timed : Bool) (word : ℕ) (ready : Bool) (bumper : BumperPc) (call : Caller)
    : Type 0 where
  pub fits : word < u32_mod
  pub watched : Watched timed word ready bumper call

pub Line-outside :
    {timed ready : Bool} {word : ℕ} {bumper : BumperPc} {call : Caller}
    → call ≡ outside
    → word < u32_mod
    → Line timed word ready bumper call
Line-outside e fits = rw e (record { fits = fits; watched = tt })

pub Line-at :
    {timed ready ready' : Bool} {word word' : ℕ} {bumper : BumperPc} {call : Caller}
    → word' ≡ word
    → ready' ≡ ready
    → Line timed word ready bumper call
    → Line timed word' ready' bumper call
Line-at e h l = rw (e, h) l

-- The way out of the call, whether or not it has registered.
pub way_out :
    (timed ready registered : Bool) (word : ℕ)
    → (w : ℕ) × Wait timed word ready (leaving registered true) w (returned true)
way_out timed ready true word = (clear_waiter word, clear)
way_out timed ready false word = (word, keep)
