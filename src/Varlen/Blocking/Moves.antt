-- ===== src/Varlen/Blocking/Moves.antt =====
-- Each step of either side keeps the invariant of the blocking consumer and its producer.
use mathlib.Core.Path.{subst, ap₂}
use spscring.View.{
  store_commit_seq, store_write_pos, store_commit_pos, store_read_pos, wake_consumer, wake_producer,
}
use spscring.Base.{◌≡◌, inl, inr, refl, sym, ◌∙◌, Bool, ltb, arith}
use spscring.Notify.{bump_notify_word}
use spscring.Notify.Word.{bump_notify_word_lem}
use spscring.Notify.Waiting.{BumperPc, idle, published, bumped}
use spscring.Notify.Caller.{
  bump_counted, Watched, Line-outside, Line-at, Wait-fits, begin-Watched, move-Watched,
  publish-Watched, bump-Watched, notify-Watched, skip-Watched,
}
use spscring.Varlen.Writer.{store_slot}
use spscring.Varlen.Threads.{
  Threads, Reserving, load_read_pos, find_full, lose, win_padding, store_padding, wake_for_padding,
  win_slot, store_header, ProducerStep, load_write_pos, reserving, write_payload, Reading,
  load_commit_pos, find_nothing, find_padding, find_message, skip, show, ConsumerStep, decline,
  take,
}
use spscring.Varlen.Threads.Invariant.{Inv}
use spscring.Varlen.Threads.Publish.{commit_padding-Inv, commit-Inv, wake_for_padding-Inv, wake-Inv}
use spscring.Varlen.Threads.Reached.{ProducerStep-Inv, ConsumerStep-Inv}
use spscring.Varlen.Blocking.{
  Blocking, has_slot, ProducerMove, aside, bump_for_padding, ConsumerMove, start_waiting, waiting,
  stop_waiting,
}
use spscring.Varlen.Blocking.Invariant.{
  Rests, AtBump, BlockingInv, Rests-counted, Rests-woken, has_slot_lem, store_commit_seq-Inv,
}

-- What each side leaves to the other.
ProducerStep-kept :
    {t t' : Threads} → ProducerStep t t' → (t'.read_pos ≡ t.read_pos) × (t'.consumer ≡ t.consumer)
unfolding store_slot store_write_pos store_commit_pos wake_consumer
ProducerStep-kept (load_write_pos r e free m fits) = (refl, refl)
ProducerStep-kept (reserving (load_read_pos r head e)) = (refl, refl)
ProducerStep-kept (reserving (find_full r head read e h)) = (refl, refl)
ProducerStep-kept (reserving (lose r head read e h)) = (refl, refl)
ProducerStep-kept (reserving (win_padding r head read e h now space)) = (refl, refl)
ProducerStep-kept (reserving (store_padding r head e)) = (refl, refl)
ProducerStep-kept (reserving (Reserving.commit_padding r head e)) = (refl, refl)
ProducerStep-kept (reserving (wake_for_padding r new_head e)) = (refl, refl)
ProducerStep-kept (reserving (win_slot r head read e h now space)) = (refl, refl)
ProducerStep-kept (reserving (store_header r head e)) = (refl, refl)
ProducerStep-kept (write_payload r position from bs e small) = (refl, refl)
ProducerStep-kept (ProducerStep.commit r position e) = (refl, refl)
ProducerStep-kept (ProducerStep.wake e) = (refl, refl)

ConsumerStep-kept :
    {t t' : Threads}
    → ConsumerStep t t'
    → (t'.commit_seq ≡ t.commit_seq) × (t'.producer ≡ t.producer)
unfolding store_read_pos wake_producer
ConsumerStep-kept (ConsumerStep.reading (Reading.load_read_pos e)) = (refl, refl)
ConsumerStep-kept (ConsumerStep.reading (load_commit_pos read e)) = (refl, refl)
ConsumerStep-kept (ConsumerStep.reading (find_nothing read c e h)) = (refl, refl)
ConsumerStep-kept (ConsumerStep.reading (find_padding read c e h n)) = (refl, refl)
ConsumerStep-kept (ConsumerStep.reading (find_message read c e h n)) = (refl, refl)
ConsumerStep-kept (ConsumerStep.reading (skip read e)) = (refl, refl)
ConsumerStep-kept (ConsumerStep.reading (show read e)) = (refl, refl)
ConsumerStep-kept (decline read x e) = (refl, refl)
ConsumerStep-kept (take read x e) = (refl, refl)
ConsumerStep-kept (ConsumerStep.wake e) = (refl, refl)

module _ (timed : Bool) (b : Blocking) (inv : BlockingInv timed b) where
  open inv use {ring, line, at_bump, rests}

  -- The call, where the producer stands at this place of a bump.
  call_at : {p : BumperPc} → b.bumper ≡ p → Watched timed b.commit_seq (has_slot b.segment) p b.call
  call_at e = subst (λ p. Watched timed b.commit_seq (has_slot b.segment) p b.call) e line.watched

  -- A store to commit_pos, which moves it up to write_pos.
  publishing :
      (t : Threads)
      → b.bumper ≡ idle
      → Inv t
      → t.commit_seq ≡ b.commit_seq
      → t.read_pos ≡ b.read_pos
      → t.commit_pos ≡ b.write_pos
      → t.consumer ≡ b.consumer
      → AtBump t.producer
      → BlockingInv timed (record b { threads = t; bumper = published })
  unfolding has_slot
  publishing t quiet ring' word read commit same at = record {
    ring = ring';
    line = record {
      fits = rw word line.fits;
      watched = rw word (
          publish-Watched timed (has_slot b.segment) b.commit_seq (has_slot t.segment) b.call
            (λ h. ground (
              arith,
              has_slot_lem b.threads ring,
              has_slot_lem t ring',
              read,
              commit,
              ring.fronts.commit_le,
            ))
            (call_at quiet));
    };
    at_bump = λ _. at;
    rests = rw same rests;
  }

  -- A bump of commit_seq.
  bumping :
      (t : Threads)
      → b.bumper ≡ published
      → Inv t
      → t.segment ≡ wake_consumer b.segment
      → t.consumer ≡ b.consumer
      → BlockingInv timed (record b {
        threads = t;
        call = bump_counted b.call;
        bumper = bumped (bump_notify_word b.commit_seq).0;
      })
  unfolding wake_consumer has_slot
  bumping t e ring' segment same = record {
    ring = ring';
    line = record {
      fits = rw segment (bump_notify_word_lem b.commit_seq line.fits).1;
      watched =
          rw segment (bump-Watched timed (has_slot b.segment) b.commit_seq b.call (call_at e));
    };
    at_bump = λ h. cc;
    rests = rw same (Rests-counted b.consumer b.call rests);
  }

  pub ProducerMove-Inv : {c : Blocking} → ProducerMove b c → BlockingInv timed c
  unfolding store_commit_pos
  ProducerMove-Inv (aside {t} quiet m commit word) =
      let ring' = ProducerStep-Inv m ring in
      let (read, same) = ProducerStep-kept m in
      let ready : has_slot t.segment ≡ has_slot b.segment =
        has_slot_lem t ring' ∙ ap₂ ltb read commit ∙ sym (has_slot_lem b.threads ring) in
      record {
        ring = ring';
        line = Line-at word ready line;
        at_bump = λ h. cc;
        rests = rw same rests;
      }
  ProducerMove-Inv (ProducerMove.commit_padding r head quiet e) =
      let ring' = commit_padding-Inv b.threads ring r head e in
      publishing _ quiet ring' refl refl ring'.producer_knows.1 refl (inr (r, _, refl))
  ProducerMove-Inv (ProducerMove.commit r position quiet e) =
      let ring' = commit-Inv b.threads ring r position e in
      publishing _ quiet ring' refl refl (sym ring'.producer_knows.1) refl (inl refl)
  ProducerMove-Inv (bump_for_padding r new_head at e) =
      bumping _ at (wake_for_padding-Inv b.threads ring r new_head e) refl refl
  ProducerMove-Inv (ProducerMove.bump at e) = bumping _ at (wake-Inv b.threads ring e) refl refl
  ProducerMove-Inv (ProducerMove.notify at) = record {
    ring = ring;
    line = record {
      fits = line.fits;
      watched = notify-Watched timed (has_slot b.segment) b.commit_seq b.call (call_at at);
    };
    at_bump = λ h. cc;
    rests = Rests-woken b.consumer b.call rests;
  }
  ProducerMove-Inv (ProducerMove.nobody_waits at) = record {
    ring = ring;
    line = record {
      fits = line.fits;
      watched = skip-Watched timed (has_slot b.segment) b.commit_seq b.call (call_at at);
    };
    at_bump = λ h. cc;
    rests = rests;
  }

  pub ConsumerMove-Inv : {c : Blocking} → ConsumerMove timed b c → BlockingInv timed c
  unfolding store_commit_seq has_slot
  ConsumerMove-Inv (ConsumerMove.reading out m) =
      let (word, same) = ConsumerStep-kept m in
      record {
        ring = ConsumerStep-Inv m ring;
        line = Line-outside out (rw word line.fits);
        at_bump = rw same at_bump;
        rests = rw out tt;
      }
  ConsumerMove-Inv (start_waiting out e) = record {
    ring = ring;
    line = record {
      fits = line.fits;
      watched = begin-Watched timed (has_slot b.segment) b.commit_seq line.fits;
    };
    at_bump = at_bump;
    rests = e;
  }
  ConsumerMove-Inv (waiting {w} e m) = record {
    ring = store_commit_seq-Inv w b.threads ring;
    line = record {
      fits = Wait-fits m line.fits;
      watched =
          move-Watched timed (has_slot b.segment) b.commit_seq m
            (subst (Watched timed b.commit_seq (has_slot b.segment) b.bumper) e line.watched);
    };
    at_bump = at_bump;
    rests = subst (Rests b.consumer) e rests;
  }
  ConsumerMove-Inv (stop_waiting e) = record {
    ring = ring;
    line = record { fits = line.fits; watched = tt };
    at_bump = at_bump;
    rests = tt;
  }
