-- ===== src/Backoff/Tests.antt =====
-- Pauses run.
use spscring.Base.{◌≡◌, refl}
use spscring.Backoff.{AtomicBackoff, cpu_pauses, thread_yield, pause, reset}

abbrev used : AtomicBackoff
used = record { pause_count = 40; max_pauses = 256 }

used-yields : (pause used).0 ≡ thread_yield
unfolding pause
used-yields = refl

reset-pauses : (pause (reset used)).0 ≡ cpu_pauses 1
unfolding pause reset
reset-pauses = refl
