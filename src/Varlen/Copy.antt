-- ===== src/Varlen/Copy.antt =====
-- varlen_reader.hpp: the overload of `read` that copies the next message out.
use spscring.Base.{
  refl, ℕ, List, [], ◌∷◌, length, Bool, true, false, ◌&&◌, Option, none, some, ltb, leb,
  if◌then◌else◌, ◌≤◌, ◌<◌, ◌≡◌, u64_mod, arith,
}
use spscring.View.{Segment}
use spscring.Varlen.Header.{MessageMeta}
use spscring.Varlen.Writer.{VarlenWriter}
use spscring.Varlen.Reader.{Message, ReadResult, read}
use spscring.Varlen.Valid.{IsValid}
use spscring.Varlen.Send.{Holds}
use spscring.Varlen.Receive.{Received, empty, kept, taken, read-Received}

-- What has been written through `out`, `out_size` and `out_meta`, of which the last two are given.
pub record CopyOut : Type 0 where
  pub out : Option (List ℕ)
  pub out_size : Option ℕ
  pub out_meta : Option MessageMeta

abbrev pub nothing_written : CopyOut
nothing_written = record { out = none; out_size = none; out_meta = none }

-- The handler: a buffer that is given and too small declines the message.
unfoldable pub copy_handler : Bool → ℕ → Message → Bool
copy_handler has_out max_size x =
    if has_out && ltb 0 (length x.payload) then leb (length x.payload) max_size else true

unfoldable pub written_by : Bool → ReadResult → CopyOut
written_by has_out r = elim r.shown [
  | none ↦ nothing_written
  | some x ↦ record {
    out = if r.consumed && (has_out && ltb 0 (length x.payload)) then some x.payload else none;
    out_size = some (length x.payload);
    out_meta = some x.meta;
  }
]

unfoldable pub read_into : Bool → ℕ → Segment → Option (Bool × CopyOut × Segment)
unfolding read copy_handler written_by
read_into has_out max_size s = elim (read (copy_handler has_out max_size) s) [
  | none ↦ none
  | some r ↦ some (r.0.consumed, written_by has_out r.0, r.1)
]

-- What the copying `read` into a buffer comes to on a ring that holds ms: on none it returns false
-- and writes nothing. A message that the buffer has room for is copied out whole and is off the
-- ring; one that is too long stays, and only its size and its meta are told.
pub data Copied (max_size : ℕ) (w : VarlenWriter)
    : List Message → Option (Bool × CopyOut × Segment) → Type 0 where
  no_message :
      {s' : Segment}
      → IsValid w s'
      → Holds s' []
      → Copied max_size w [] (some (false, nothing_written, s'))
  copied :
      {x : Message} {ms : List Message} {s' : Segment} {c : CopyOut}
      → length x.payload ≤ max_size
      → IsValid w s'
      → Holds s' ms
      → c.out ≡ some x.payload
      → c.out_size ≡ some (length x.payload)
      → c.out_meta ≡ some x.meta
      → Copied max_size w (x ∷ ms) (some (true, c, s'))
  too_small :
      {x : Message} {ms : List Message} {s' : Segment} {c : CopyOut}
      → max_size < length x.payload
      → IsValid w s'
      → Holds s' (x ∷ ms)
      → c.out ≡ none
      → c.out_size ≡ some (length x.payload)
      → c.out_meta ≡ some x.meta
      → Copied max_size w (x ∷ ms) (some (false, c, s'))

copy_handler-kept :
    (max_size : ℕ) (x : Message)
    → copy_handler true max_size x ≡ false
    → max_size < length x.payload
unfolding copy_handler
copy_handler-kept max_size x e = ground (arith, e)

copy_handler-taken :
    (max_size : ℕ) (x : Message) → copy_handler true max_size x ≡ true → length x.payload ≤ max_size
unfolding copy_handler
copy_handler-taken max_size x e = ground (arith, e)

by_Received :
    {max_size : ℕ} {w : VarlenWriter} {ms : List Message} {o : Option (ReadResult × Segment)}
    → Received (copy_handler true max_size) w ms o
    → Copied max_size w ms
        (elim o [ none ↦ none | some r ↦ some (r.0.consumed, written_by true r.0, r.1) ])
unfolding written_by
by_Received (empty v h) = no_message v h
by_Received {max_size} (kept {x} no_ v h) =
    too_small (copy_handler-kept max_size x no_) v h refl refl refl
by_Received {max_size} (taken {x} yes_ nonempty v h) =
    copied (copy_handler-taken max_size x yes_) v h (ground (arith, nonempty)) refl refl

-- On a valid ring that holds ms, the copying `read` into a buffer returns, with the message copied
-- out, refused for its size, or with none there.
pub read_into-Copied :
    (max_size : ℕ) (w : VarlenWriter) (s : Segment) {ms : List Message}
    → IsValid w s
    → s.commit_pos < u64_mod
    → Holds s ms
    → Copied max_size w ms (read_into true max_size s)
unfolding read_into
read_into-Copied max_size w s v room h =
    by_Received (read-Received (copy_handler true max_size) w s v room h)
