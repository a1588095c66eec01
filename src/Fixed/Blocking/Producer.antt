-- ===== src/Fixed/Blocking/Producer.antt =====
-- Each step of the producer's side keeps the invariant of the two blocking sides.
use mathlib.Core.Path.{subst}
use spscring.View.{store_read_wake_seq, Segment, store_commit_pos, wake_consumer}
use spscring.Base.{ℕ, ◌≡◌, ◌≢◌, refl, Bool, List, Option, arith}
use spscring.Notify.{bump_notify_word}
use spscring.Notify.Word.{bump_notify_word_lem}
use spscring.Notify.Waiting.{BumperPc, idle, published, bumped}
use spscring.Notify.Caller.{
  Line-outside, Line-at, Caller, Watched, bump_counted, caller_woken, outside, Wait-fits,
  begin-Watched, move-Watched, publish-Watched, bump-Watched, notify-Watched, skip-Watched,
}
use spscring.Fixed.{FixedWriter, reserve_from, fill}
use spscring.Fixed.Threads.{
  ProducerPc, filling, Threads, Reserving, load_write_pos, find_full, reserve, committed,
  consumer_woken,
}
use spscring.Fixed.Threads.Invariant.{Inv, producer_at}
use spscring.Fixed.Threads.Producer.{
  Reserving-Inv, filling_in-Inv, committing-Inv, waking_consumer-Inv,
}
use spscring.Fixed.Blocking.{
  Blocking, has_message, has_room, ProducerStep, reserving, filling_in, committing,
}
use spscring.Fixed.Blocking.Invariant.{
  ProducerRests, ConsumerPlace, ConsumerPlace-counted, ConsumerPlace-woken, BlockingInv,
  producer_busy, store_read_wake_seq-Inv, has_message_lem,
}

-- What try_reserve and a write into the slot leave alone.
record Kept (s t : Segment) : Type 0 where
  commit_word : t.commit_seq ≡ s.commit_seq
  read_word : t.read_wake_seq ≡ s.read_wake_seq
  messages : has_message t ≡ has_message s

Kept-same : (s : Segment) → Kept s s
Kept-same s = record { commit_word = refl; read_word = refl; messages = refl }

reserve_from-Kept :
    (write read : ℕ) (w : FixedWriter) (s : Segment) → Kept s (reserve_from write read w s).2
unfolding reserve_from
reserve_from-Kept write read w s =
    ground (arith, has_message_lem s, has_message_lem (reserve_from write read w s).2)

fill-Kept : (slot : ℕ) (payload : List ℕ) (s : Segment) → Kept s (fill slot payload s)
unfolding fill
fill-Kept slot payload s = ground (arith, has_message_lem s, has_message_lem (fill slot payload s))

Reserving-Kept :
    {t t' : Threads} → Reserving t t' → Kept t.segment t'.segment × (t'.consumer ≡ t.consumer)
Reserving-Kept {t} (load_write_pos e free) = (Kept-same t.segment, refl)
Reserving-Kept {t} (Reserving.load_read_pos write e) = (Kept-same t.segment, refl)
Reserving-Kept {t} (find_full write read e full) = (Kept-same t.segment, refl)
Reserving-Kept {t} (reserve write read slot w' s' e room h) = (
  subst (λ (r : Option ℕ × FixedWriter × Segment). Kept t.segment r.2) h
      (reserve_from-Kept write read t.writer t.segment),
  refl,
)

module _ (timed : Bool) (b : Blocking) (inv : BlockingInv timed b) where
  open inv use {ring, commit_line, read_line, producer_place, consumer_place}

  -- A step of try_reserve, or a write into the slot.
  in_ring :
      (t : Threads)
      → b.producer_call ≡ outside
      → b.commit_bumper ≢ published
      → Inv t
      → Kept b.segment t.segment
      → t.consumer ≡ b.consumer
      → BlockingInv timed (record b { threads = t })
  in_ring t out quiet ring' f same = record {
    ring = ring';
    commit_line = Line-at f.commit_word f.messages commit_line;
    read_line = Line-outside out (rw f.read_word read_line.fits);
    producer_place = record { at_publish = λ h. absurd (quiet h); rests = rw out tt };
    consumer_place = rw same consumer_place;
  }

  -- The line to the consumer, where commit stands at this place.
  commit_line_at :
      {p : BumperPc}
      → b.commit_bumper ≡ p
      → Watched timed b.commit_seq (has_message b.segment) p b.consumer_call
  commit_line_at e =
      subst (λ p. Watched timed b.commit_seq (has_message b.segment) p b.consumer_call) e
        commit_line.watched

  committing-BlockingInv :
      (slot : ℕ)
      → b.producer_call ≡ outside
      → b.commit_bumper ≡ idle
      → b.producer ≡ filling slot
      → BlockingInv timed
          (record b { threads = committed slot b.threads; commit_bumper = published })
  unfolding store_commit_pos
  committing-BlockingInv slot out quiet e =
      let (held, at) = producer_at b.threads ring e in
      let s' = store_commit_pos b.writer.reserved_end b.segment in
      record {
        ring = committing-Inv b.threads ring slot e;
        commit_line = record {
          fits = commit_line.fits;
          watched =
              publish-Watched timed (has_message b.segment) b.commit_seq (has_message s')
                b.consumer_call
                (λ h.
                  ground (
                    arith,
                    has_message_lem b.segment,
                    has_message_lem s',
                    ring.valid.reserved held,
                  ))
                (commit_line_at quiet);
        };
        read_line = Line-outside out read_line.fits;
        producer_place = record { at_publish = λ _. refl; rests = rw out tt };
        consumer_place = consumer_place;
      }

  bumping-BlockingInv :
      b.commit_bumper ≡ published
      → BlockingInv timed (record b {
        threads = consumer_woken b.threads;
        consumer_call = bump_counted b.consumer_call;
        commit_bumper = bumped (bump_notify_word b.commit_seq).0;
      })
  unfolding wake_consumer has_message has_room
  bumping-BlockingInv e = record {
    ring = waking_consumer-Inv b.threads ring (producer_place.at_publish e);
    commit_line = record {
      fits = (bump_notify_word_lem b.commit_seq commit_line.fits).1;
      watched =
          bump-Watched timed (has_message b.segment) b.commit_seq b.consumer_call
            (commit_line_at e);
    };
    read_line = read_line;
    producer_place = record {
      at_publish = λ h. cc;
      rests =
          producer_busy b.producer ProducerPc.idle b.commit_bumper
            (bumped (bump_notify_word b.commit_seq).0) b.producer_call producer_place.rests
            (λ h. cc);
    };
    consumer_place = ConsumerPlace-counted b.consumer b.read_bumper b.consumer_call consumer_place;
  }

  -- Behind the test of the bump, and the wake where there is one.
  settled :
      (call : Caller)
      → b.commit_bumper ≢ idle
      → Watched timed b.commit_seq (has_message b.segment) idle call
      → ConsumerPlace b.consumer b.read_bumper call
      → BlockingInv timed (record b { consumer_call = call; commit_bumper = idle })
  settled call busy watched place = record {
    ring = ring;
    commit_line = record { fits = commit_line.fits; watched = watched };
    read_line = read_line;
    producer_place = record {
      at_publish = λ h. cc;
      rests =
          producer_busy b.producer b.producer b.commit_bumper idle b.producer_call
            producer_place.rests busy;
    };
    consumer_place = place;
  }

  pub ProducerStep-Inv : {c : Blocking} → ProducerStep timed b c → BlockingInv timed c
  unfolding store_read_wake_seq has_message has_room
  ProducerStep-Inv (reserving out quiet m) =
      let (f, same) = Reserving-Kept m in
      in_ring _ out (λ h. cc) (Reserving-Inv b.threads ring m) f same
  ProducerStep-Inv (filling_in slot payload out e small) =
      in_ring _ out (λ h. let p = producer_place.at_publish h in cc)
        (filling_in-Inv b.threads ring slot payload e small) (fill-Kept slot payload b.segment) refl
  ProducerStep-Inv (committing slot out quiet e) = committing-BlockingInv slot out quiet e
  ProducerStep-Inv (ProducerStep.bumping e) = bumping-BlockingInv e
  ProducerStep-Inv (ProducerStep.notifying e) =
      settled (caller_woken b.consumer_call) (λ h. cc)
        (notify-Watched timed (has_message b.segment) b.commit_seq b.consumer_call
          (commit_line_at e))
        (ConsumerPlace-woken b.consumer b.read_bumper b.consumer_call consumer_place)
  ProducerStep-Inv (ProducerStep.nobody_waits e) =
      settled b.consumer_call (λ h. cc)
        (skip-Watched timed (has_message b.segment) b.commit_seq b.consumer_call (commit_line_at e))
        consumer_place
  ProducerStep-Inv (ProducerStep.start_waiting out quiet e) = record {
    ring = ring;
    commit_line = commit_line;
    read_line = record {
      fits = read_line.fits;
      watched = begin-Watched timed (has_room b.segment) b.read_wake_seq read_line.fits;
    };
    producer_place = record { at_publish = producer_place.at_publish; rests = (e, quiet) };
    consumer_place = consumer_place;
  }
  ProducerStep-Inv (ProducerStep.waiting {w} {n} {p} {q} e m) = record {
    ring = store_read_wake_seq-Inv w b.threads ring;
    commit_line = commit_line;
    read_line = record {
      fits = Wait-fits m read_line.fits;
      watched = move-Watched timed (has_room b.segment) b.read_wake_seq m (
          subst (Watched timed b.read_wake_seq (has_room b.segment) b.read_bumper) e
            read_line.watched);
    };
    producer_place = record {
      at_publish = producer_place.at_publish;
      rests = subst (ProducerRests b.producer b.commit_bumper) e producer_place.rests;
    };
    consumer_place = consumer_place;
  }
  ProducerStep-Inv (ProducerStep.stop_waiting e) = record {
    ring = ring;
    commit_line = commit_line;
    read_line = record { fits = read_line.fits; watched = tt };
    producer_place = record { at_publish = producer_place.at_publish; rests = tt };
    consumer_place = consumer_place;
  }
