-- ===== src/Varlen/Threads/Reached.antt =====
-- The invariant holds in every state that the two threads reach.

use spscring.Base.{refl, sym}
use spscring.Varlen.Threads.{
  idle, Threads, ProducerStep, Reserving, Reading, reserving, reading, load_write_pos, find_full,
  lose, win_padding, store_padding, commit_padding, wake_for_padding, win_slot, write_payload,
  commit,
}
use spscring.Varlen.Threads.Invariant.{Inv, producer_at}
use spscring.Varlen.Threads.{
  resting, loaded_front, ConsumerStep, load_commit_pos, find_nothing, find_padding, find_message,
  skip, show, decline, take, Reach, here, by_producer, by_consumer,
}
use spscring.Varlen.Threads.Producer
use spscring.Varlen.Threads.Slots
use spscring.Varlen.Threads.Publish
use spscring.Varlen.Threads.Consumer

-- Each access of either thread keeps the invariant.
pub Reserving-Inv : {t t' : Threads} → Reserving t t' → Inv t → Inv t'
Reserving-Inv {t} (Reserving.load_read_pos r head e) inv = Producer.load_read_pos-Inv t inv r head e
Reserving-Inv {t} (find_full r head read e h) inv =
    Producer.moved t inv idle (producer_at t inv e).0
Reserving-Inv {t} (lose r head read e other) inv = absurd (other (sym (producer_at t inv e).1))
Reserving-Inv {t} (win_padding r head read e h same space) inv =
    Producer.win_padding-Inv t inv r head read e h space
Reserving-Inv {t} (store_padding r head e) inv = Slots.store_padding-Inv t inv r head e
Reserving-Inv {t} (commit_padding r head e) inv = Publish.commit_padding-Inv t inv r head e
Reserving-Inv {t} (wake_for_padding r new_head e) inv =
    Publish.wake_for_padding-Inv t inv r new_head e
Reserving-Inv {t} (win_slot r head read e h same space) inv =
    Producer.win_slot-Inv t inv r head read e h space
Reserving-Inv {t} (Reserving.store_header r head e) inv = Slots.store_header-Inv t inv r head e

pub ProducerStep-Inv : {t t' : Threads} → ProducerStep t t' → Inv t → Inv t'
ProducerStep-Inv {t} (load_write_pos r e free m fits) inv =
    Producer.load_write_pos-Inv t inv r e m fits
ProducerStep-Inv (reserving m) inv = Reserving-Inv m inv
ProducerStep-Inv {t} (write_payload r position from bs e small) inv =
    Slots.write_payload-Inv t inv r position from bs e small
ProducerStep-Inv {t} (commit r position e) inv = Publish.commit-Inv t inv r position e
ProducerStep-Inv {t} (ProducerStep.wake e) inv = Publish.wake-Inv t inv e

pub Reading-Inv : {t t' : Threads} → Reading t t' → Inv t → Inv t'
Reading-Inv {t} (Reading.load_read_pos e) inv = Consumer.moved t inv (loaded_front t.read_pos) refl
Reading-Inv {t} (load_commit_pos read e) inv = Consumer.load_commit_pos-Inv t inv read e
Reading-Inv {t} (find_nothing read c e h) inv = Consumer.moved t inv resting tt
Reading-Inv {t} (find_padding read c e h none_there) inv =
    Consumer.find_padding-Inv t inv read c e h none_there
Reading-Inv {t} (find_message read c e h some_there) inv =
    Consumer.find_message-Inv t inv read c e h some_there
Reading-Inv {t} (skip read e) inv = Consumer.skip-Inv t inv read e
Reading-Inv {t} (show read e) inv = Consumer.show-Inv t inv read e

pub ConsumerStep-Inv : {t t' : Threads} → ConsumerStep t t' → Inv t → Inv t'
ConsumerStep-Inv (reading m) inv = Reading-Inv m inv
ConsumerStep-Inv {t} (decline read x e) inv = Consumer.moved t inv resting tt
ConsumerStep-Inv {t} (take read x e) inv = Consumer.take-Inv t inv read x e
ConsumerStep-Inv {t} (ConsumerStep.wake e) inv = Consumer.wake-Inv t inv e

pub Reach-Inv : {start t : Threads} → Inv start → Reach start t → Inv t
Reach-Inv inv here = inv
Reach-Inv inv (by_producer r m) = ProducerStep-Inv m (Reach-Inv inv r)
Reach-Inv inv (by_consumer r m) = ConsumerStep-Inv m (Reach-Inv inv r)
