-- ===== src/Notify/Waiting.antt =====
-- `wait_on_notify_word` and its timed variant, one shared access at a time, beside a thread that
-- publishes, bumps the word and wakes. The blocking call is the Linux one: `atomic_wait_for` of
-- include/spscring/internal/atomic_wait_futex.hpp loads the word and then enters FUTEX_WAIT, which
-- the kernel documents to compare the word once more and to sleep only if it is unchanged; it may
-- return early. Atomic accesses take effect in one order.
use spscring.Base.{ℕ, ◌+◌, ◌≡◌, ◌≢◌, Bool, true, false, not, ◌||◌}
use spscring.Notify.{has_waiter, bump_notify_word, set_waiter, clear_waiter}

-- Where the waiter stands, with `registered_by_us`, `marked` and the result where they are live.
pub data WaiterPc : Type 0 where
  top : (registered : Bool) → WaiterPc  -- head of the loop
  marking : (registered : Bool) → WaiterPc  -- before the fetch_or
  rechecking : (registered : Bool) (marked : ℕ) → WaiterPc
  calling : (registered : Bool) (marked : ℕ) → WaiterPc  -- before the load of atomic_wait_for
  blocking : (registered : Bool) (marked : ℕ) → WaiterPc  -- at FUTEX_WAIT
  asleep : (registered : Bool) → WaiterPc
  leaving : (registered result : Bool) → WaiterPc  -- before the conditional fetch_and
  returned : (result : Bool) → WaiterPc

pub data BumperPc : Type 0 where
  idle : BumperPc
  published : BumperPc  -- the state change is stored, the word not yet bumped
  bumped : (wake : Bool) → BumperPc  -- before the test of the bump's result

-- `ready` says that `pred()` returns false from now on; `bumps` counts the bumps, for statements.
pub record System : Type 0 where
  pub word : ℕ
  pub ready : Bool
  pub waiter : WaiterPc
  pub bumper : BumperPc
  pub bumps : ℕ

-- A move of the waiter: the new word and where it stands. `timed` tells the timed variant.
pub data Wait (timed : Bool) (word : ℕ) (ready : Bool) : WaiterPc → ℕ → WaiterPc → Type 0 where
  stop : {r : Bool} → ready ≡ true → Wait timed word ready (top r) word (leaving r true)
  go_on : {r : Bool} → ready ≡ false → Wait timed word ready (top r) word (marking r)
  mark :
      {r : Bool}
      → Wait timed word ready
          (marking r)
          (set_waiter word)
          (rechecking (r || not (has_waiter word)) word)
  stop_again :
      {r : Bool} {m : ℕ}
      → ready ≡ true
      → Wait timed word ready (rechecking r m) word (leaving r true)
  go_block :
      {r : Bool} {m : ℕ} → ready ≡ false → Wait timed word ready (rechecking r m) word (calling r m)
  expire :
      {r : Bool} {m : ℕ} → timed ≡ true → Wait timed word ready (calling r m) word (leaving r false)
  load_changed : {r : Bool} {m : ℕ} → word ≢ m → Wait timed word ready (calling r m) word (top r)
  load_same :
      {r : Bool} {m : ℕ} → word ≡ m → Wait timed word ready (calling r m) word (blocking r m)
  refuse : {r : Bool} {m : ℕ} → word ≢ m → Wait timed word ready (blocking r m) word (top r)
  sleep : {r : Bool} {m : ℕ} → word ≡ m → Wait timed word ready (blocking r m) word (asleep r)
  wake_early : {r : Bool} → Wait timed word ready (asleep r) word (top r)
  clear : {b : Bool} → Wait timed word ready (leaving true b) (clear_waiter word) (returned b)
  keep : {b : Bool} → Wait timed word ready (leaving false b) word (returned b)

-- FUTEX_WAKE on all waiters of the word.
unfoldable pub wake_all : WaiterPc → WaiterPc
wake_all (asleep r) = top r
wake_all p = p

-- A step of either thread. A publication, or the bump itself where the predicate reads the word,
-- may make the predicate false; nobody but the waiter makes it true again.
pub data Step (timed : Bool) (s : System) : System → Type 0 where
  wait :
      {w : ℕ} {p : WaiterPc}
      → Wait timed s.word s.ready s.waiter w p
      → Step timed s (record s { word = w; waiter = p })
  publish :
      (now : Bool)
      → s.bumper ≡ idle
      → Step timed s (record s { ready = s.ready || now; bumper = published })
  bump :
      (now : Bool)
      → s.bumper ≡ published
      → Step timed s (record s {
        word = (bump_notify_word s.word).1;
        ready = s.ready || now;
        bumper = bumped (bump_notify_word s.word).0;
        bumps = s.bumps + 1;
      })
  notify :
      s.bumper ≡ bumped true → Step timed s (record s { waiter = wake_all s.waiter; bumper = idle })
  skip : s.bumper ≡ bumped false → Step timed s (record s { bumper = idle })

-- A call may begin at any word, whatever the other thread is doing.
abbrev pub start_at : ℕ → Bool → BumperPc → System
start_at word ready bumper = record {
  word = word;
  ready = ready;
  waiter = top false;
  bumper = bumper;
  bumps = 0;
}

-- The states in which a call that starts at this word can find itself.
pub data Reach (timed : Bool) (word : ℕ) : System → Type 0 where
  start : (ready : Bool) (bumper : BumperPc) → Reach timed word (start_at word ready bumper)
  later : {s t : System} → Reach timed word s → Step timed s t → Reach timed word t

-- The next step of the other thread, if it publishes nothing new.
unfoldable pub turn_from : BumperPc → System → System
turn_from idle s = s
turn_from published s = record s {
  word = (bump_notify_word s.word).1;
  bumper = bumped (bump_notify_word s.word).0;
  bumps = s.bumps + 1;
}
turn_from (bumped true) s = record s { waiter = wake_all s.waiter; bumper = idle }
turn_from (bumped false) s = record s { bumper = idle }

unfoldable pub bumper_turn : System → System
unfolding turn_from
bumper_turn s = turn_from s.bumper s
