-- ===== src/Varlen/Exchange.antt =====
-- Any sequence of calls of `write` and `read` on a variable length ring.
use mathlib.Core.Path.{subst}
use spscring.Base.{
  ℕ, List, [], ◌∷◌, ◌++◌, append_assoc, append-nil, ◌+◌, ◌≤◌, ◌<◌, ◌≡◌, refl, sym, ap, ◌∙◌, length,
  Bool, false, none, some, u32_mod, u64_mod, if◌then◌else◌,
}
use spscring.Memory.{Memory, load}
use spscring.View.{Segment}
use spscring.Varlen.Writer.{VarlenWriter, write}
use spscring.Varlen.Reader.{Message, ReadResult, read}
use spscring.Varlen.Valid.{IsValid, Headroom}
use spscring.Varlen.Send.{MetaFits, Holds}
use spscring.Varlen.Deliver.{Delivered, accepted, rejected, write-Delivered}
use spscring.Varlen.Receive.{Received, empty, kept, taken, read-Received}

-- A message with a payload, whose slot has a size of 32 bits and whose meta fits its types.
pub record IsSendable (x : Message) (s : Segment) : Type 0 where
  pub nonempty : 0 < length x.payload
  pub size : length x.payload + 32 + s.data_alignment ≤ u32_mod
  pub meta_fits : MetaFits x.meta

-- The messages that a call has put in, and taken out.
abbrev pub put : Bool → Message → List Message
put b x = if b then x ∷ [] else []

unfoldable pub got : ReadResult → List Message
got r = if r.consumed then elim r.shown [ none ↦ [] | some x ↦ x ∷ [] ] else []

-- The states that calls lead to, with the messages sent and received on the way, in order.
pub data Exchange (start_writer : VarlenWriter) (start_segment : Segment)
    : VarlenWriter → Segment → List Message → List Message → Type 0 where
  start : Exchange start_writer start_segment start_writer start_segment [] []
  send :
      {w w' : VarlenWriter} {s s' : Segment} {sent received : List Message} {b : Bool} (x : Message)
      (source : Memory)
      → Exchange start_writer start_segment w s sent received
      → Headroom s
      → IsSendable x s
      → load source 0 (length x.payload) ≡ x.payload
      → write (length x.payload) (some source) x.meta w s ≡ some (b, w', s')
      → Exchange start_writer start_segment w' s' (sent ++ put b x) received
  receive :
      {w : VarlenWriter} {s s' : Segment} {sent received : List Message} {r : ReadResult}
      (handler : Message → Bool)
      → Exchange start_writer start_segment w s sent received
      → s.commit_pos < u64_mod
      → read handler s ≡ some (r, s')
      → Exchange start_writer start_segment w s' sent (received ++ got r)

-- A valid ring that holds ms, with nothing reserved.
pub record Idle (w : VarlenWriter) (s : Segment) (ms : List Message) : Type 0 where
  pub valid : IsValid w s
  pub free : w.pending ≡ false
  pub holds : Holds s ms

after_send :
    {needed : ℕ} {s s' : Segment} {w' : VarlenWriter} {ms : List Message} {x : Message} {b : Bool}
    → Delivered needed s ms x (some (b, w', s'))
    → Idle w' s' (ms ++ put b x)
after_send (accepted enough v e _ h) = record { valid = v; free = e; holds = h }
after_send {s' = s'} {ms = ms} (rejected short v e h) = record {
  valid = v;
  free = e;
  holds = subst (Holds s') (sym (append-nil ms)) h;
}

after_receive :
    {handler : Message → Bool} {w : VarlenWriter} {s' : Segment} {ms : List Message}
    {r : ReadResult}
    → Received handler w ms (some (r, s'))
    → w.pending ≡ false
    → (ms' : List Message) × (got r ++ ms' ≡ ms) × Idle w s' ms'
unfolding got
after_receive (empty v h) e = ([], refl, record { valid = v; free = e; holds = h })
after_receive (kept {x} {ms} _ v h) e = (x ∷ ms, refl, record { valid = v; free = e; holds = h })
after_receive (taken {x} {ms} _ _ v h) e = (ms, refl, record { valid = v; free = e; holds = h })

module _ {start_writer : VarlenWriter} {start_segment : Segment} {before : List Message}
    (idle : Idle start_writer start_segment before) where
  -- From a valid ring that holds `before`, whatever the calls: the messages received, and those
  -- that the ring still holds, are `before` and the messages sent, in order and each once. Each write
  -- is of a message with a payload whose size, with the header and the alignment, does not exceed
  -- 2^32, and whose meta fits its fields; before each the 64-bit positions last for three rounds.
  pub Exchange-in_order :
      {w : VarlenWriter} {s : Segment} {sent received : List Message}
      → Exchange start_writer start_segment w s sent received
      → (held : List Message) × (received ++ held ≡ before ++ sent) × Idle w s held
  Exchange-in_order start = (before, sym (append-nil before), idle)
  Exchange-in_order
        (send {w} {s = s} {sent = sent} {received} {b} x source run room sendable given e) =
      let (held, order, i) = Exchange-in_order run in
      let result = subst (Delivered _ s held x) e (
        write-Delivered source x.payload x.meta w s held i.valid room i.free sendable.nonempty
          sendable.size given sendable.meta_fits i.holds) in
      (
        held ++ put b x,
        sym (append_assoc received held (put b x))
            ∙ ap (λ l. l ++ put b x) order
            ∙ append_assoc before sent (put b x),
        after_send result,
      )
  Exchange-in_order (receive {w} {s = s} {received = received} {r} handler run room e) =
      let (held, order, i) = Exchange-in_order run in
      let (rest, parts, i') =
        after_receive
          (subst (Received handler w held) e (read-Received handler w s i.valid room i.holds))
          i.free in
      (rest, append_assoc received (got r) rest ∙ ap (λ l. received ++ l) parts ∙ order, i')
