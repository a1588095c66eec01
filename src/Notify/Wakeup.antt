-- ===== src/Notify/Wakeup.antt =====
-- No wakeup is lost, as long as fewer than 2^31 bumps fall into one call.
use spscring.Base.{
  refl, ℕ, ◌+◌, ◌%◌, ◌^◌, ◌≤◌, ◌<◌, ◌≡◌, ◌⊎◌, Bool, true, u32_mod, arith, false, ◌||◌, inl, inr,
  ◌≢◌,
}
use mathlib.Core.Path.{subst}
use mathlib.Core.Bool.{or-false}
use spscring.Notify.{has_waiter, set_waiter, bump_notify_word}
use spscring.Notify.Word.{waiter_flag_lem, set_waiter_lem, has_waiter_iff, bump_notify_word_lem}
use spscring.Notify.Waiting.{
  WaiterPc, rechecking, calling, blocking, asleep, BumperPc, published, bumped, System, Wait, stop,
  go_on, mark, stop_again, go_block, expire, load_changed, load_same, refuse, sleep, wake_early,
  clear, keep, idle, Step, Reach, wake_all, start, wait, later, publish, bump, notify, skip,
  bumper_turn, top, turn_from,
}

-- The word since the fetch_or that read `marked`: `since` bumps were added to what it left, of at
-- most `bumps`.
record Marked (bumps word marked : ℕ) : Type 0 where
  since : ℕ
  counted : since ≤ bumps
  fits : marked < u32_mod
  grown : word ≡ (set_waiter marked + since) % u32_mod

-- What holds of the word and the other thread at each place of the waiter.
abbrev Watch : ℕ → ℕ → Bool → BumperPc → WaiterPc → Type 0
Watch bumps word ready bumper (rechecking r m) = Marked bumps word m
Watch bumps word ready bumper (calling r m) =
    (k : Marked bumps word m) × (ready ≡ true → (bumper ≡ published) ⊎ (0 < k.since))
Watch bumps word ready bumper (blocking r m) =
    (k : Marked bumps word m) × (ready ≡ true → (bumper ≡ published) ⊎ (0 < k.since))
Watch bumps word ready bumper (asleep r) =
    ((has_waiter word ≡ true) × (ready ≡ true → bumper ≡ published)) ⊎ (bumper ≡ bumped true)
Watch _ _ _ _ _ = Unit {0}

record Inv (s : System) : Type 0 where
  fits : s.word < u32_mod
  watch : Watch s.bumps s.word s.ready s.bumper s.waiter

-- Blocking on the marked word, with few bumps since, means that none has happened and that the
-- word carries the flag.
unchanged :
    {bumps word marked : ℕ} (k : Marked bumps word marked)
    → bumps < 2 ^ 31
    → word ≡ marked
    → (k.since ≡ 0) × (has_waiter word ≡ true)
unchanged {word = w} {marked = m} k few e =
    ground (arith, k.counted, k.fits, k.grown, set_waiter_lem m, has_waiter_iff w)

Wait-Inv :
    (s : System) {timed : Bool} {w : ℕ} {p p' : WaiterPc}
    → Wait timed s.word s.ready p w p'
    → s.bumps < 2 ^ 31
    → s.word < u32_mod
    → Watch s.bumps s.word s.ready s.bumper p
    → (w < u32_mod) × Watch s.bumps w s.ready s.bumper p'
Wait-Inv s (stop h) few f i = (f, tt)
Wait-Inv s (go_on h) few f i = (f, tt)
Wait-Inv s mark few f i =
    let flags = waiter_flag_lem s.word f in
    (ground arith, record { since = 0; counted = omega arith; fits = f; grown = ground arith })
Wait-Inv s (stop_again h) few f i = (f, tt)
Wait-Inv s (go_block h) few f i = (f, (i, λ e. cc))
Wait-Inv s (expire h) few f i = (f, tt)
Wait-Inv s (load_changed h) few f i = (f, tt)
Wait-Inv s (load_same h) few f i = (f, i)
Wait-Inv s (refuse h) few f i = (f, tt)
Wait-Inv s (sleep h) few f i = (f, ground (arith, unchanged i.0 few h, i.1))
Wait-Inv s (wake_early) few f i = (f, tt)
Wait-Inv s clear few f i = (ground (arith, waiter_flag_lem s.word f), tt)
Wait-Inv s keep few f i = (f, tt)

-- A publication keeps what holds at each place.
publish-Watch :
    (p : WaiterPc) (s : System) (now : Bool)
    → s.bumper ≡ idle
    → Watch s.bumps s.word s.ready s.bumper p
    → Watch s.bumps s.word (s.ready || now) published p
publish-Watch (rechecking r m) s now e i = i
publish-Watch (calling r m) s now e i = (i.0, λ _. inl refl)
publish-Watch (blocking r m) s now e i = (i.0, λ _. inl refl)
publish-Watch (asleep r) s now e i = ground arith
publish-Watch _ s now e i = tt

Marked-bump :
    {n w m : ℕ}
    → w < u32_mod
    → Marked n w m
    → (k : Marked (n + 1) (bump_notify_word w).1 m) × (0 < k.since)
unfolding bump_notify_word
Marked-bump h k = (
  record {
    since = k.since + 1;
    counted = omega (arith, k.counted);
    fits = k.fits;
    grown = omega (arith, k.grown);
  },
  omega arith,
)

bump-Watch :
    (p : WaiterPc) (s : System) (now : Bool)
    → s.bumper ≡ published
    → s.word < u32_mod
    → Watch s.bumps s.word s.ready s.bumper p
    → let (wake, w) = bump_notify_word s.word in
      Watch (s.bumps + 1) w (s.ready || now) (bumped wake) p
bump-Watch (rechecking r m) s now e h i = (Marked-bump h i).0
bump-Watch (calling r m) s now e h i = let (k, pos) = Marked-bump h i.0 in (k, λ _. inr pos)
bump-Watch (blocking r m) s now e h i = let (k, pos) = Marked-bump h i.0 in (k, λ _. inr pos)
bump-Watch (asleep r) s now e h i = ground (arith, bump_notify_word_lem s.word)
bump-Watch _ s now e h i = tt

notify-Watch :
    (p : WaiterPc) (s : System)
    → s.bumper ≡ bumped true
    → Watch s.bumps s.word s.ready s.bumper p
    → Watch s.bumps s.word s.ready idle (wake_all p)
unfolding wake_all
notify-Watch (rechecking r m) s e i = i
notify-Watch (calling r m) s e i = (i.0, λ h. ground (arith, i.1))
notify-Watch (blocking r m) s e i = (i.0, λ h. ground (arith, i.1))
notify-Watch _ s e i = tt

skip-Watch :
    (p : WaiterPc) (s : System)
    → s.bumper ≡ bumped false
    → Watch s.bumps s.word s.ready s.bumper p
    → Watch s.bumps s.word s.ready idle p
skip-Watch (rechecking r m) s e i = i
skip-Watch (calling r m) s e i = (i.0, λ h. ground (arith, i.1))
skip-Watch (blocking r m) s e i = (i.0, λ h. ground (arith, i.1))
skip-Watch (asleep r) s e i = ground (arith, i)
skip-Watch _ s e i = tt

bumps_mono : {timed : Bool} {s t : System} → Step timed s t → s.bumps ≤ t.bumps
bumps_mono (wait m) = omega arith
bumps_mono (publish now e) = omega arith
bumps_mono (bump now e) = omega arith
bumps_mono (notify e) = omega arith
bumps_mono (skip e) = omega arith

Step-Inv : {timed : Bool} {s t : System} → Step timed s t → s.bumps < 2 ^ 31 → Inv s → Inv t
Step-Inv {s = s} (wait m) few i =
    let (f, k) = Wait-Inv s m few i.fits i.watch in record { fits = f; watch = k }
Step-Inv {s = s} (publish now e) few i = record {
  fits = i.fits;
  watch = publish-Watch s.waiter s now e i.watch;
}
Step-Inv {s = s} (bump now e) few i = record {
  fits = (bump_notify_word_lem s.word i.fits).1;
  watch = bump-Watch s.waiter s now e i.fits i.watch;
}
Step-Inv {s = s} (notify e) few i = record {
  fits = i.fits;
  watch = notify-Watch s.waiter s e i.watch;
}
Step-Inv {s = s} (skip e) few i = record { fits = i.fits; watch = skip-Watch s.waiter s e i.watch }

Reach-Inv :
    {timed : Bool} {word : ℕ} {s : System}
    → word < u32_mod
    → Reach timed word s
    → s.bumps < 2 ^ 31
    → Inv s
Reach-Inv h (start ready bumper) few = record { fits = h; watch = tt }
Reach-Inv h (later r st) few =
    let earlier = bumps_mono st in Step-Inv st (omega arith) (Reach-Inv h r (omega arith))

-- While the waiter sleeps although its predicate is false, the other thread is still to wake it: it
-- has published and will find the waiter bit in the word, or has found it and is about to call the
-- wake primitive. Fewer than 2^31 bumps since the call began are assumed.
pub no_lost_wakeup :
    {timed : Bool} {word : ℕ} {s : System} {r : Bool}
    → word < u32_mod
    → Reach timed word s
    → s.bumps < 2 ^ 31
    → s.waiter ≡ asleep r
    → s.ready ≡ true
    → ((s.bumper ≡ published) × ((bump_notify_word s.word).0 ≡ true)) ⊎ (s.bumper ≡ bumped true)
unfolding bump_notify_word
no_lost_wakeup {s = s} {r = r} h reach few e done =
    ground
      (arith, subst (λ p. Watch s.bumps s.word s.ready s.bumper p) e (Reach-Inv h reach few).watch)

bumper_turn-ready : (s : System) → (bumper_turn s).ready ≡ s.ready
unfolding bumper_turn
bumper_turn-ready s = ground arith

bumper_turn-woken :
    (s : System) {r : Bool}
    → s.waiter ≡ asleep r
    → ((s.bumper ≡ published) × ((bump_notify_word s.word).0 ≡ true)) ⊎ (s.bumper ≡ bumped true)
    → (bumper_turn (bumper_turn s)).waiter ≡ top r
unfolding bumper_turn wake_all
bumper_turn-woken s e h = ground arith

-- A turn of the other thread that has something left to do is a step.
turn_from-Step :
    (b : BumperPc) (s : System) {timed : Bool}
    → s.bumper ≡ b
    → b ≢ idle
    → Step timed s (turn_from b s)
unfolding turn_from
turn_from-Step idle s e h = absurd (h refl)
turn_from-Step published s {timed} e h =
    subst
      (λ b. Step timed s (record s {
        word = (bump_notify_word s.word).1;
        ready = b;
        bumper = bumped (bump_notify_word s.word).0;
        bumps = s.bumps + 1;
      }))
      (or-false s.ready) (bump false e)
turn_from-Step (bumped true) s e h = notify e
turn_from-Step (bumped false) s e h = skip e

pub bumper_turn-Step : (s : System) {timed : Bool} → s.bumper ≢ idle → Step timed s (bumper_turn s)
unfolding bumper_turn
bumper_turn-Step s h = turn_from-Step s.bumper s refl h

-- A waiter that sleeps although its predicate is false is back at the head of its loop after two
-- further turns of the other thread at most.
sleeper_is_woken :
    {timed : Bool} {word : ℕ} {s : System} {r : Bool}
    → word < u32_mod
    → Reach timed word s
    → s.bumps < 2 ^ 31
    → s.waiter ≡ asleep r
    → s.ready ≡ true
    → ((bumper_turn (bumper_turn s)).waiter ≡ top r) × ((bumper_turn (bumper_turn s)).ready ≡ true)
sleeper_is_woken {s = s} h reach few e done = (
  bumper_turn-woken s e (no_lost_wakeup h reach few e done),
  rw (bumper_turn-ready, bumper_turn-ready) done,
)
