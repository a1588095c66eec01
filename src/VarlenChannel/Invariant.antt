-- ===== src/VarlenChannel/Invariant.antt =====
-- What holds of the channel, and what an access within a call leaves of it.
use mathlib.Core.Path.{subst}
use spscring.Base.{ℕ, ◌+◌, ◌≤◌, ◌<◌, ◌≡◌, true, length, refl, false}
use spscring.View.{store_write_pos, store_commit_pos, store_read_pos, wake_consumer}
use spscring.Varlen.Writer.{store_slot}
use spscring.Varlen.Reader.{Message}
use spscring.Varlen.Threads.{
  ProducerPc, idle, at_head, loaded_read, pad_won, pad_stored, pad_committed, slot_won, filling,
  published, Threads, Reserving, find_full, lose, win_padding, store_padding, commit_padding,
  wake_for_padding, win_slot, Reading, load_commit_pos, find_nothing, find_padding, find_message,
  skip, show,
}
use spscring.Varlen.Threads.Invariant.{Inv}
use spscring.Channel.Numbers.{Numbered}
use spscring.VarlenChannel.{
  ConsumerLoop, draining, found_nothing, got_message, finished, Channel, request_of, var_capacity,
}

abbrev pub number_of : Message → ℕ
number_of x = x.meta.user_data

-- How many messages have been sent, by where the producer stands in the round for message i.
abbrev pub ProducerCounts : ℕ → ℕ → ℕ → ProducerPc → Type 0
ProducerCounts messages i n idle = n ≡ i
ProducerCounts messages i n (at_head q _) = (q ≡ request_of i) × (n ≡ i) × (i < messages)
ProducerCounts messages i n (loaded_read q _ _) = (q ≡ request_of i) × (n ≡ i) × (i < messages)
ProducerCounts messages i n (pad_won q _) = (q ≡ request_of i) × (n ≡ i) × (i < messages)
ProducerCounts messages i n (pad_stored q _) = (q ≡ request_of i) × (n ≡ i) × (i < messages)
ProducerCounts messages i n (pad_committed q _) = (q ≡ request_of i) × (n ≡ i) × (i < messages)
ProducerCounts messages i n (slot_won q _) = (q ≡ request_of i) × (n ≡ i) × (i < messages)
ProducerCounts messages i n (filling q _) = (q ≡ request_of i) × (n ≡ i) × (i < messages)
ProducerCounts messages i n published = (n ≡ i + 1) × (i < messages)

-- How many have been received.
abbrev pub ConsumerCounts : ConsumerLoop → ℕ → ℕ → ℕ → Type 0
ConsumerCounts draining drained user_data n = n ≡ drained
ConsumerCounts found_nothing drained user_data n = n ≡ drained
ConsumerCounts got_message drained user_data n = (n ≡ drained + 1) × (user_data ≡ drained)
ConsumerCounts finished drained user_data n = n ≡ drained

-- The capacity and the alignment.
abbrev pub geometry_of : Threads → ℕ × ℕ
geometry_of t = (t.data_capacity, t.data_alignment)

pub record ChannelInv (messages : ℕ) (c : Channel) : Type 0 where
  pub ring : Inv c.threads
  pub numbered : Numbered number_of 0 c.threads.sent
  pub producer_counts : ProducerCounts messages c.i (length c.threads.sent) c.threads.producer
  pub consumer_counts : ConsumerCounts c.loop c.drained c.user_data (length c.threads.received)
  pub most : c.i ≤ messages
  pub all_sent : c.producer_done ≡ true → c.i ≡ messages
  pub loop_over : c.loop ≡ finished → c.producer_done ≡ true
  pub no_mismatch : c.mismatches ≡ 0
  pub geometry : geometry_of c.threads ≡ (var_capacity, 8)
  pub unbroken : c.broken ≡ false

-- Within try_reserve nothing is sent or received, and the request stays, and so does the geometry.
pub Reserving-Counts :
    (messages i : ℕ) {t t' : Threads}
    → Reserving t t'
    → ProducerCounts messages i (length t.sent) t.producer
    → ProducerCounts messages i (length t'.sent) t'.producer
Reserving-Counts messages i {t} (Reserving.load_read_pos r head e) h =
    subst (ProducerCounts messages i (length t.sent)) e h
Reserving-Counts messages i {t} (find_full r head read e _) h =
    (subst (ProducerCounts messages i (length t.sent)) e h).1
Reserving-Counts messages i {t} (lose r head read e _) h =
    subst (ProducerCounts messages i (length t.sent)) e h
Reserving-Counts messages i {t} (win_padding r head read e _ _ _) h =
    subst (ProducerCounts messages i (length t.sent)) e h
Reserving-Counts messages i {t} (store_padding r head e) h =
    subst (ProducerCounts messages i (length t.sent)) e h
Reserving-Counts messages i {t} (commit_padding r head e) h =
    subst (ProducerCounts messages i (length t.sent)) e h
Reserving-Counts messages i {t} (wake_for_padding r new_head e) h =
    subst (ProducerCounts messages i (length t.sent)) e h
Reserving-Counts messages i {t} (win_slot r head read e _ _ _) h =
    subst (ProducerCounts messages i (length t.sent)) e h
Reserving-Counts messages i {t} (Reserving.store_header r head e) h =
    subst (ProducerCounts messages i (length t.sent)) e h

pub Reserving-lists :
    {t t' : Threads}
    → Reserving t t'
    → (t'.sent ≡ t.sent) × (t'.received ≡ t.received) × (geometry_of t' ≡ geometry_of t)
unfolding store_write_pos store_commit_pos wake_consumer store_slot
Reserving-lists (Reserving.load_read_pos _ _ _) = (refl, refl, refl)
Reserving-lists (find_full _ _ _ _ _) = (refl, refl, refl)
Reserving-lists (lose _ _ _ _ _) = (refl, refl, refl)
Reserving-lists (win_padding _ _ _ _ _ _ _) = (refl, refl, refl)
Reserving-lists (store_padding _ _ _) = (refl, refl, refl)
Reserving-lists (commit_padding _ _ _) = (refl, refl, refl)
Reserving-lists (wake_for_padding _ _ _) = (refl, refl, refl)
Reserving-lists (win_slot _ _ _ _ _ _ _) = (refl, refl, refl)
Reserving-lists (Reserving.store_header _ _ _) = (refl, refl, refl)

-- Nor within read up to what the handler answers, and the producer stays where it is.
pub Reading-lists :
    {t t' : Threads}
    → Reading t t'
    → (t'.sent ≡ t.sent)
      × (t'.received ≡ t.received)
      × (geometry_of t' ≡ geometry_of t)
      × (t'.producer ≡ t.producer)
unfolding store_read_pos
Reading-lists (Reading.load_read_pos _) = (refl, refl, refl, refl)
Reading-lists (load_commit_pos _ _) = (refl, refl, refl, refl)
Reading-lists (find_nothing _ _ _ _) = (refl, refl, refl, refl)
Reading-lists (find_padding _ _ _ _ _) = (refl, refl, refl, refl)
Reading-lists (find_message _ _ _ _ _) = (refl, refl, refl, refl)
Reading-lists (skip _ _) = (refl, refl, refl, refl)
Reading-lists (show _ _) = (refl, refl, refl, refl)

module _ (messages : ℕ) (c : Channel) (inv : ChannelInv messages c) where
  pub counts_at :
      {p : ProducerPc}
      → c.threads.producer ≡ p
      → ProducerCounts messages c.i (length c.threads.sent) p
  counts_at e = subst (ProducerCounts messages c.i (length c.threads.sent)) e inv.producer_counts

  pub received_at :
      {l : ConsumerLoop}
      → c.loop ≡ l
      → ConsumerCounts l c.drained c.user_data (length c.threads.received)
  received_at e =
      subst (λ l. ConsumerCounts l c.drained c.user_data (length c.threads.received)) e
        inv.consumer_counts
