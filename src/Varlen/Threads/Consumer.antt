-- ===== src/Varlen/Threads/Consumer.antt =====
-- Each access of the consumer keeps the invariant.

use mathlib.Core.Path.{subst}
use spscring.Base.{
  ℕ, ◌+◌, ◌%◌, ◌≤◌, ◌<◌, ◌≡◌, ◌≢◌, sym, ap, ◌∙◌, false, List, [], ◌∷◌, ◌++◌, append_assoc, arith,
  add64,
}
use spscring.Memory.{load}
use spscring.View.{Segment}
use spscring.Varlen.Header.{load_slot_size, load_payload_size}
use spscring.Varlen.Reader.{Message, message_at}
use spscring.Varlen.Chain.{Chain, done, pad, item, Chain-le}
use spscring.Varlen.Threads.{Threads, committed}
use spscring.Varlen.Threads.Invariant.{Ring, ring_of, ConsumerKnows, HoldsIn, Inv, message_in}
use spscring.View.{store_read_pos, wake_producer}
use spscring.Varlen.Threads.{
  ConsumerPc, resting, loaded_front, loaded_fronts, skipping, showing, shown, advanced, skipped,
  taken, finds_nothing,
}
use spscring.Varlen.Threads.Invariant.{consumer_at}
use spscring.Varlen.Threads.Stores.{ProducerKnows-kept}

-- A slot is found only before the commit_pos that has been loaded.
finds_something :
    (s : Segment) (read committed : ℕ) → finds_nothing s read committed ≡ false → read < committed
unfolding finds_nothing
finds_something s read committed h = ground (arith, h)

abbrev front_size : Ring → ℕ
front_size r = load_slot_size r.bytes (r.read % r.capacity)

-- What is behind the slot at the front: the messages `ms`, and the slot ends by commit_pos.
abbrev Behind : Ring → List Message → Type 0
Behind r ms =
    (r.read + front_size r ≤ r.commit)
    × Chain r.bytes r.capacity r.alignment r.commit (r.read + front_size r) ms

Behind-slot :
    (r : Ring) (size : ℕ) (ms : List Message)
    → front_size r ≡ size
    → Chain r.bytes r.capacity r.alignment r.commit (r.read + size) ms
    → Behind r ms
Behind-slot r size ms e c = rw e (Chain-le c, c)

Behind-padding :
    (r : Ring) {ms : List Message}
    → HoldsIn r ms
    → r.read < r.commit
    → load_payload_size r.bytes (r.read % r.capacity) ≡ 0
    → Behind r ms
Behind-padding r (done e) lt none_there = absurd (omega arith)
Behind-padding r {ms} (pad size al h fit a b c) lt none_there = Behind-slot r size ms a c
Behind-padding r (item size x al p q fit a b d e c) lt none_there = absurd (omega (arith, b))

Behind-message :
    (r : Ring) {ms : List Message}
    → HoldsIn r ms
    → r.read < r.commit
    → load_payload_size r.bytes (r.read % r.capacity) ≢ 0
    → (rest : List Message) × (ms ≡ message_in r.bytes (r.read % r.capacity) ∷ rest) × Behind r rest
Behind-message r (done e) lt some_there = absurd (omega arith)
Behind-message r (pad size al h fit a b c) lt some_there = absurd (some_there b)
Behind-message r (item {ms = rest} size x al p q fit a b d e c) lt some_there =
    let at = r.read % r.capacity in
    let same : message_in r.bytes at ≡ x =
      λ i. record { payload = (ap (load r.bytes (at + 32)) b ∙ e) i; meta = d i } in
    (rest, ap (λ y. y ∷ rest) (sym same), Behind-slot r size rest a c)

module _ (t : Threads) (inv : Inv t) where
  open inv use {fronts, producer_knows, consumer_knows, held, holds, in_order}

  abbrev ring : Ring
  ring = ring_of t.segment

  -- The consumer moves on with the segment as it is.
  pub moved : (c : ConsumerPc) → ConsumerKnows ring c → Inv (record t { consumer = c })
  moved c k = record {
    fronts = fronts;
    producer_knows = producer_knows;
    consumer_knows = k;
    held = held;
    holds = holds;
    in_order = in_order;
  }

  pub load_commit_pos-Inv :
      (read : ℕ)
      → t.consumer ≡ loaded_front read
      → Inv (record t { consumer = loaded_fronts read t.commit_pos })
  load_commit_pos-Inv read e =
      moved (loaded_fronts read t.commit_pos) (consumer_at t inv e, omega arith)

  pub find_padding-Inv :
      (read committed : ℕ)
      → t.consumer ≡ loaded_fronts read committed
      → finds_nothing t.segment read committed ≡ false
      → load_payload_size t.bytes (read % t.data_capacity) ≡ 0
      → Inv (record t { consumer = skipping read })
  find_padding-Inv read committed e h none_there =
      let (now, low) = consumer_at t inv e in
      let lt = finds_something t.segment read committed h in
      moved (skipping read) (
        now,
        omega arith,
        ap (λ p. load_payload_size t.bytes (p % t.data_capacity)) (sym now) ∙ none_there,
      )

  pub find_message-Inv :
      (read committed : ℕ)
      → t.consumer ≡ loaded_fronts read committed
      → finds_nothing t.segment read committed ≡ false
      → load_payload_size t.bytes (read % t.data_capacity) ≢ 0
      → Inv (record t { consumer = showing read })
  find_message-Inv read committed e h some_there =
      let (now, low) = consumer_at t inv e in
      let lt = finds_something t.segment read committed h in
      moved (showing read) (
        now,
        omega arith,
        λ q. some_there (ap (λ p. load_payload_size t.bytes (p % t.data_capacity)) now ∙ q),
      )

  pub show-Inv :
      (read : ℕ)
      → t.consumer ≡ showing read
      → Inv (record t { consumer = shown read (message_at (read % t.data_capacity) t.segment) })
  unfolding message_at
  show-Inv read e =
      let (now, lt, some_there) = consumer_at t inv e in
      moved (shown read (message_in t.bytes (read % t.data_capacity)))
        ((now, lt, some_there), ap (λ p. message_in t.bytes (p % t.data_capacity)) now)

  -- read_pos moves over the slot at the front.
  advance :
      (read : ℕ) (received rest : List Message)
      → read ≡ t.read_pos
      → Behind ring rest
      → received ++ rest ≡ t.sent
      → let size = load_slot_size t.bytes (read % t.data_capacity) in
        Inv (record t {
          segment = store_read_pos (add64 read size) t.segment;
          consumer = advanced;
          received = received;
        })
  unfolding store_read_pos
  advance read received rest now (le, c) order =
      let size = load_slot_size t.bytes (read % t.data_capacity) in
      let same : size ≡ front_size ring =
        ap (λ p. load_slot_size t.bytes (p % t.data_capacity)) now in
      let sum : add64 read size ≡ t.read_pos + front_size ring =
        omega (arith, same, fronts.small, fronts.commit_le) in
      record {
        fronts = record {
          alignment = fronts.alignment;
          word = fronts.word;
          room = fronts.room;
          aligned = fronts.aligned;
          commit_slot = fronts.commit_slot;
          read_le = omega (arith, sum);
          commit_le = fronts.commit_le;
          write_le = omega (arith, sum, fronts.write_le);
          small = fronts.small;
        };
        producer_knows =
            ProducerKnows-kept t.writer ring (add64 read size) (omega (arith, sum)) t.producer
              producer_knows;
        consumer_knows = tt;
        held = rest;
        holds =
            subst (λ p. Chain t.bytes t.data_capacity t.data_alignment t.commit_pos p rest)
              (sym sum) c;
        in_order = order;
      }

  pub skip-Inv : (read : ℕ) → t.consumer ≡ skipping read → Inv (skipped read t)
  skip-Inv read e =
      let (now, lt, none_there) = consumer_at t inv e in
      advance read t.received held now (Behind-padding ring holds lt none_there) in_order

  pub take-Inv : (read : ℕ) (x : Message) → t.consumer ≡ shown read x → Inv (taken read x t)
  take-Inv read x e =
      let ((now, lt, some_there), seen) = consumer_at t inv e in
      let (rest, first, behind) = Behind-message ring holds lt some_there in
      advance read (t.received ++ x ∷ []) rest now behind (
        append_assoc t.received (x ∷ []) rest
        ∙ ap (λ q. t.received ++ q) (ap (λ (y : Message). y ∷ rest) seen ∙ sym first)
        ∙ in_order)

  pub wake-Inv :
      t.consumer ≡ advanced
      → Inv (record t { segment = wake_producer t.segment; consumer = resting })
  unfolding wake_producer
  wake-Inv e = record {
    fronts = fronts;
    producer_knows = producer_knows;
    consumer_knows = tt;
    held = held;
    holds = holds;
    in_order = in_order;
  }
