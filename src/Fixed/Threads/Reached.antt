-- ===== src/Fixed/Threads/Reached.antt =====
-- The invariant holds in every state that the two threads reach.

use spscring.Fixed.Threads.{
  Threads, Step, reserving, filling_in, committing, waking_consumer, reading, looking, giving_back,
  waking_producer, Reach, here, later,
}
use spscring.Fixed.Threads.Producer.{
  Reserving-Inv, filling_in-Inv, committing-Inv, waking_consumer-Inv,
}
use spscring.Fixed.Threads.Consumer.{Reading-Inv, looking-Inv, giving_back-Inv, waking_producer-Inv}
use spscring.Fixed.Threads.Invariant.{Inv}

-- Each access of either thread keeps the invariant.
pub Step-Inv : {t t' : Threads} → Step t t' → Inv t → Inv t'
Step-Inv {t} (reserving m) inv = Reserving-Inv t inv m
Step-Inv {t} (filling_in slot payload e small) inv = filling_in-Inv t inv slot payload e small
Step-Inv {t} (committing slot e) inv = committing-Inv t inv slot e
Step-Inv {t} (waking_consumer e) inv = waking_consumer-Inv t inv e
Step-Inv {t} (reading m) inv = Reading-Inv t inv m
Step-Inv {t} (looking slot e) inv = looking-Inv t inv slot e
Step-Inv {t} (giving_back slot seen e) inv = giving_back-Inv t inv slot seen e
Step-Inv {t} (waking_producer e) inv = waking_producer-Inv t inv e

pub Reach-Inv : {start t : Threads} → Inv start → Reach start t → Inv t
Reach-Inv inv here = inv
Reach-Inv inv (later r m) = Step-Inv m (Reach-Inv inv r)
