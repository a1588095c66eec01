-- ===== src/Channel/Silence.antt =====
-- Nobody in the channel registers on a notify word, so no commit and no advance wakes anybody.
use mathlib.Core.Path.{subst}
use spscring.Base.{
  ℕ, ◌+◌, ◌^◌, ◌≤◌, ◌<◌, ◌≡◌, refl, sym, ap, ◌∙◌, [], ◌∷◌, Option, length, length-append, arith,
}
use spscring.Memory.{Memory}
use spscring.Control.{init_control_block, is_valid_data_alignment}
use spscring.View.{Segment, store_commit_pos, store_read_pos, wake_consumer, wake_producer}
use spscring.Fixed.{FixedWriter, fill}
use spscring.Fixed.Contents.{contents}
use spscring.Varlen.Header.{to_bytes}
use spscring.Fixed.Threads.{
  ProducerPc, ConsumerPc, resting, loaded_front, loaded_fronts, viewing, viewed, advanced, Threads,
  Reserving, load_write_pos, find_full, Reading, load_commit_pos, find_empty, find_slot,
}
use spscring.Channel.{
  Channel, ConsumerLoop, Step, reserve, write_tag, commit, finish_producing, try_read, check_tag,
  give_back, see_done, wait, start, Reach, here, later,
}
use spscring.Channel.Invariant.{ProducerCounts, ChannelInv}
use spscring.Channel.Outcome.{Reach-ChannelInv}
use spscring.Channel.Words.{
  wake_consumer-silent, wake_producer-silent, SameWords, fill-SameWords, reserve_from-SameWords,
}

-- The bumps of read_wake_seq trail the frames that have been given back.
abbrev Bumps : ℕ → ℕ → ConsumerPc → Type 0
Bumps seq n resting = seq ≡ n
Bumps seq n (loaded_front read) = seq ≡ n
Bumps seq n (loaded_fronts read committed) = seq ≡ n
Bumps seq n (viewing slot) = seq ≡ n
Bumps seq n (viewed slot seen) = seq ≡ n
Bumps seq n advanced = seq + 1 ≡ n

record Silent (c : Channel) : Type 0 where
  commits : c.threads.commit_seq ≡ c.i
  advances : Bumps c.threads.read_wake_seq (length c.threads.received) c.threads.consumer
  quiet : c.threads.wakes ≡ []

Silent-SameWords :
    (c : Channel) (s : Segment)
    → SameWords c.threads.segment s
    → Silent c
    → (s.commit_seq ≡ c.i)
      × Bumps s.read_wake_seq (length c.threads.received) c.threads.consumer
      × (s.wakes ≡ [])
Silent-SameWords c s f k = (
  f.commit ∙ k.commits,
  subst (λ n. Bumps n (length c.threads.received) c.threads.consumer) (sym f.read) k.advances,
  f.wakes ∙ k.quiet,
)

sent-le :
    {messages : ℕ} (c : Channel)
    → ProducerCounts messages c.i c.tagged c.threads.bytes
        (length c.threads.sent)
        c.threads.producer
    → c.i ≤ messages
    → length c.threads.sent ≤ messages
sent-le {messages} c counts most = go c.threads.producer counts
  where
    go :
        (p : ProducerPc)
        → ProducerCounts messages c.i c.tagged c.threads.bytes (length c.threads.sent) p
        → length c.threads.sent ≤ messages
    go ProducerPc.idle (_, n) = omega (arith, n, most)
    go (ProducerPc.loaded_write _) (_, n, more) = omega arith
    go (ProducerPc.loaded_both _ _) (_, n, more) = omega arith
    go (ProducerPc.filling _) (n, more, _) = omega arith
    go ProducerPc.published (_, n, more) = omega arith

module _ (messages : ℕ) (small : messages < 2 ^ 31) (c : Channel) (inv : ChannelInv messages c)
    (k : Silent c) where
  advances_at :
      {p : ConsumerPc}
      → c.threads.consumer ≡ p
      → Bumps c.threads.read_wake_seq (length c.threads.received) p
  advances_at e = subst (Bumps c.threads.read_wake_seq (length c.threads.received)) e k.advances

  Reserving-Silent : {t : Threads} → Reserving c.threads t → Silent (record c { threads = t })
  Reserving-Silent (load_write_pos e free) = record {
    commits = k.commits;
    advances = k.advances;
    quiet = k.quiet;
  }
  Reserving-Silent (Reserving.load_read_pos write e) = record {
    commits = k.commits;
    advances = k.advances;
    quiet = k.quiet;
  }
  Reserving-Silent (find_full write read e full) = record {
    commits = k.commits;
    advances = k.advances;
    quiet = k.quiet;
  }
  Reserving-Silent (Reserving.reserve write read slot w' s' e room h) =
      let same =
        subst (λ (r : Option ℕ × FixedWriter × Segment). SameWords c.threads.segment r.2) h
          (reserve_from-SameWords write read c.threads.writer c.threads.segment) in
      let (commits, advances, quiet) = Silent-SameWords c s' same k in
      record { commits = commits; advances = advances; quiet = quiet }

  Reading-Silent :
      {t : Threads} (l : ConsumerLoop)
      → Reading c.threads t
      → Silent (record c { threads = t; loop = l })
  Reading-Silent l (Reading.load_read_pos e) = record {
    commits = k.commits;
    advances = advances_at e;
    quiet = k.quiet;
  }
  Reading-Silent l (load_commit_pos read e) = record {
    commits = k.commits;
    advances = advances_at e;
    quiet = k.quiet;
  }
  Reading-Silent l (find_empty read committed e h) = record {
    commits = k.commits;
    advances = advances_at e;
    quiet = k.quiet;
  }
  Reading-Silent l (find_slot read committed slot size e h) = record {
    commits = k.commits;
    advances = advances_at e;
    quiet = k.quiet;
  }

  few_received : length c.threads.received ≤ messages
  few_received = omega (
    arith,
    sent-le c inv.producer_counts inv.most,
    ap length inv.ring.in_order,
    length-append c.threads.received (contents c.threads.segment),
  )

  Step-Silent : {d : Channel} → Step messages c d → Silent d
  unfolding store_commit_pos store_read_pos wake_consumer wake_producer
  Step-Silent (reserve more m) = Reserving-Silent m
  Step-Silent (write_tag slot e untagged) =
      let (commits, advances, quiet) =
        Silent-SameWords c (fill slot (to_bytes 8 c.i) c.threads.segment)
          (fill-SameWords slot (to_bytes 8 c.i) c.threads.segment) k in
      record { commits = commits; advances = advances; quiet = quiet }
  Step-Silent (commit slot e tagged) = record {
    commits = k.commits;
    advances = k.advances;
    quiet = k.quiet;
  }
  Step-Silent (Step.wake_consumer e) =
      let (up, quiet) =
        wake_consumer-silent c.threads.segment (omega (arith, k.commits, inv.most)) in
      record {
        commits = up ∙ ap (λ n. n + 1) k.commits;
        advances = k.advances;
        quiet = quiet ∙ k.quiet;
      }
  Step-Silent (finish_producing e over) = record {
    commits = k.commits;
    advances = k.advances;
    quiet = k.quiet;
  }
  Step-Silent (try_read l m) = Reading-Silent _ m
  Step-Silent (check_tag slot e) = record {
    commits = k.commits;
    advances = advances_at e;
    quiet = k.quiet;
  }
  Step-Silent (give_back slot seen e) = record {
    commits = k.commits;
    advances = omega (arith, advances_at e, length-append c.threads.received (seen ∷ []));
    quiet = k.quiet;
  }
  Step-Silent (Step.wake_producer e) =
      let (up, quiet) =
        wake_producer-silent c.threads.segment (omega (arith, advances_at e, few_received)) in
      record { commits = k.commits; advances = up ∙ advances_at e; quiet = quiet ∙ k.quiet }
  Step-Silent (see_done l d) = record {
    commits = k.commits;
    advances = k.advances;
    quiet = k.quiet;
  }
  Step-Silent (wait l d) = record { commits = k.commits; advances = k.advances; quiet = k.quiet }

Reach-Silent :
    (messages : ℕ) {bytes : Memory} {c : Channel}
    → messages < 2 ^ 31
    → Reach messages bytes c
    → Silent c
unfolding start init_control_block is_valid_data_alignment
Reach-Silent messages small here = record { commits = refl; advances = refl; quiet = refl }
Reach-Silent messages small (later {c} r m) =
    Step-Silent messages small c (Reach-ChannelInv messages (omega arith) r)
      (Reach-Silent messages small r) m

-- With fewer than 2^31 messages no commit and no advance of the channel wakes a waiter, and
-- commit_seq is the number of commits.
pub nobody_woken :
    (messages : ℕ) {bytes : Memory} {c : Channel}
    → messages < 2 ^ 31
    → Reach messages bytes c
    → (c.threads.wakes ≡ []) × (c.threads.commit_seq ≡ c.i)
nobody_woken messages small r = let k = Reach-Silent messages small r in (k.quiet, k.commits)
