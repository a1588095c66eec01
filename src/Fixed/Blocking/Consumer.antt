-- ===== src/Fixed/Blocking/Consumer.antt =====
-- Each step of the consumer's side keeps the invariant of the two blocking sides.
use mathlib.Core.Path.{subst}
use spscring.View.{store_commit_seq, store_read_pos, wake_producer}
use spscring.Base.{ℕ, ◌≡◌, ◌≢◌, refl, Bool, List, arith}
use spscring.Notify.{bump_notify_word}
use spscring.Notify.Word.{bump_notify_word_lem}
use spscring.Notify.Waiting.{BumperPc, idle, published, bumped}
use spscring.Notify.Caller.{
  Line-outside, Caller, Watched, bump_counted, caller_woken, outside, Wait-fits, begin-Watched,
  move-Watched, publish-Watched, bump-Watched, notify-Watched, skip-Watched,
}
use spscring.Fixed.Threads.{
  resting, viewed, Threads, Reading, load_commit_pos, find_empty, find_slot, given_back,
  producer_woken,
}
use spscring.Fixed.Threads.Invariant.{Inv, consumer_at}
use spscring.Fixed.Threads.Messages.{next_read_pos, store_read_pos-IsValid}
use spscring.Fixed.Threads.Consumer.{Reading-Inv, looking-Inv, giving_back-Inv, waking_producer-Inv}
use spscring.Fixed.Blocking.{
  Blocking, has_message, has_room, ConsumerStep, reading, looking, giving_back,
}
use spscring.Fixed.Blocking.Invariant.{
  ConsumerRests, ProducerPlace, ProducerPlace-counted, ProducerPlace-woken, BlockingInv,
  consumer_busy, store_commit_seq-Inv, has_room_lem,
}

Reading-Kept :
    {t t' : Threads} → Reading t t' → (t'.segment ≡ t.segment) × (t'.producer ≡ t.producer)
Reading-Kept (Reading.load_read_pos e) = (refl, refl)
Reading-Kept (load_commit_pos read e) = (refl, refl)
Reading-Kept (find_empty read committed e h) = (refl, refl)
Reading-Kept (find_slot read committed slot size e h) = (refl, refl)

module _ (timed : Bool) (b : Blocking) (inv : BlockingInv timed b) where
  open inv use {ring, read_line, commit_line, consumer_place, producer_place}

  -- A step of try_read, or a look at the slot.
  in_ring :
      (t : Threads)
      → b.consumer_call ≡ outside
      → b.read_bumper ≢ published
      → Inv t
      → t.segment ≡ b.segment
      → t.producer ≡ b.producer
      → BlockingInv timed (record b { threads = t })
  in_ring t out quiet ring' same producer = record {
    ring = ring';
    commit_line = Line-outside out (rw same commit_line.fits);
    read_line = rw same read_line;
    consumer_place = record { at_advance = λ h. absurd (quiet h); rests = rw out tt };
    producer_place = rw producer producer_place;
  }

  -- The line to the producer, where read_advance stands at this place.
  read_line_at :
      {p : BumperPc}
      → b.read_bumper ≡ p
      → Watched timed b.read_wake_seq (has_room b.segment) p b.producer_call
  read_line_at e =
      subst (λ p. Watched timed b.read_wake_seq (has_room b.segment) p b.producer_call) e
        read_line.watched

  giving_back-BlockingInv :
      (slot : ℕ) (seen : List ℕ)
      → b.consumer_call ≡ outside
      → b.read_bumper ≡ idle
      → b.consumer ≡ viewed slot seen
      → BlockingInv timed
          (record b { threads = given_back seen b.threads; read_bumper = published })
  unfolding store_read_pos
  giving_back-BlockingInv slot seen out quiet e =
      let ((at, some_there), same) = consumer_at b.threads ring e in
      let s' = store_read_pos (next_read_pos b.segment) b.segment in
      let (next, valid') = store_read_pos-IsValid b.writer b.segment ring.valid some_there in
      record {
        ring = giving_back-Inv b.threads ring slot seen e;
        commit_line = Line-outside out commit_line.fits;
        read_line = record {
          fits = read_line.fits;
          watched =
              publish-Watched timed (has_room b.segment) b.read_wake_seq (has_room s')
                b.producer_call
                (λ h. ground (
                  arith,
                  has_room_lem b.writer s' valid',
                  next,
                  ring.valid.item,
                  ring.valid.write_le,
                ))
                (read_line_at quiet);
        };
        consumer_place = record { at_advance = λ _. refl; rests = rw out tt };
        producer_place = producer_place;
      }

  bumping-BlockingInv :
      b.read_bumper ≡ published
      → BlockingInv timed (record b {
        threads = producer_woken b.threads;
        producer_call = bump_counted b.producer_call;
        read_bumper = bumped (bump_notify_word b.read_wake_seq).0;
      })
  unfolding wake_producer has_room has_message
  bumping-BlockingInv e = record {
    ring = waking_producer-Inv b.threads ring (consumer_place.at_advance e);
    read_line = record {
      fits = (bump_notify_word_lem b.read_wake_seq read_line.fits).1;
      watched =
          bump-Watched timed (has_room b.segment) b.read_wake_seq b.producer_call (read_line_at e);
    };
    commit_line = commit_line;
    consumer_place = record {
      at_advance = λ h. cc;
      rests =
          consumer_busy b.consumer resting b.read_bumper
            (bumped (bump_notify_word b.read_wake_seq).0) b.consumer_call consumer_place.rests
            (λ h. cc);
    };
    producer_place =
        ProducerPlace-counted b.producer b.commit_bumper b.producer_call producer_place;
  }

  -- Behind the test of the bump, and the wake where there is one.
  settled :
      (call : Caller)
      → b.read_bumper ≢ idle
      → Watched timed b.read_wake_seq (has_room b.segment) idle call
      → ProducerPlace b.producer b.commit_bumper call
      → BlockingInv timed (record b { producer_call = call; read_bumper = idle })
  settled call busy watched place = record {
    ring = ring;
    read_line = record { fits = read_line.fits; watched = watched };
    commit_line = commit_line;
    consumer_place = record {
      at_advance = λ h. cc;
      rests =
          consumer_busy b.consumer b.consumer b.read_bumper idle b.consumer_call
            consumer_place.rests busy;
    };
    producer_place = place;
  }

  pub ConsumerStep-Inv : {c : Blocking} → ConsumerStep timed b c → BlockingInv timed c
  unfolding store_commit_seq has_room has_message
  ConsumerStep-Inv (reading out quiet m) =
      let (same, producer) = Reading-Kept m in
      in_ring _ out (λ h. cc) (Reading-Inv b.threads ring m) same producer
  ConsumerStep-Inv (looking slot out e) =
      in_ring _ out (λ h. let p = consumer_place.at_advance h in cc)
        (looking-Inv b.threads ring slot e) refl refl
  ConsumerStep-Inv (giving_back slot seen out quiet e) =
      giving_back-BlockingInv slot seen out quiet e
  ConsumerStep-Inv (ConsumerStep.bumping e) = bumping-BlockingInv e
  ConsumerStep-Inv (ConsumerStep.notifying e) =
      settled (caller_woken b.producer_call) (λ h. cc)
        (notify-Watched timed (has_room b.segment) b.read_wake_seq b.producer_call (read_line_at e))
        (ProducerPlace-woken b.producer b.commit_bumper b.producer_call producer_place)
  ConsumerStep-Inv (ConsumerStep.nobody_waits e) =
      settled b.producer_call (λ h. cc)
        (skip-Watched timed (has_room b.segment) b.read_wake_seq b.producer_call (read_line_at e))
        producer_place
  ConsumerStep-Inv (ConsumerStep.start_waiting out quiet e) = record {
    ring = ring;
    read_line = read_line;
    commit_line = record {
      fits = commit_line.fits;
      watched = begin-Watched timed (has_message b.segment) b.commit_seq commit_line.fits;
    };
    consumer_place = record { at_advance = consumer_place.at_advance; rests = (e, quiet) };
    producer_place = producer_place;
  }
  ConsumerStep-Inv (ConsumerStep.waiting {w} {n} {p} {q} e m) = record {
    ring = store_commit_seq-Inv w b.threads ring;
    read_line = read_line;
    commit_line = record {
      fits = Wait-fits m commit_line.fits;
      watched = move-Watched timed (has_message b.segment) b.commit_seq m (
          subst (Watched timed b.commit_seq (has_message b.segment) b.commit_bumper) e
            commit_line.watched);
    };
    consumer_place = record {
      at_advance = consumer_place.at_advance;
      rests = subst (ConsumerRests b.consumer b.read_bumper) e consumer_place.rests;
    };
    producer_place = producer_place;
  }
  ConsumerStep-Inv (ConsumerStep.stop_waiting e) = record {
    ring = ring;
    read_line = read_line;
    commit_line = record { fits = commit_line.fits; watched = tt };
    consumer_place = record { at_advance = consumer_place.at_advance; rests = tt };
    producer_place = producer_place;
  }
