-- ===== src/Varlen/Send.antt =====
-- A slot that has been taken, filled and committed is a message at the end of the ring.
use native.Mathlib.Nat.{mod-lt}
use mathlib.Core.Path.{subst}
use spscring.Base.{
  refl, sym, ap, ◌∙◌, ◌+◌, ◌%◌, ◌≡◌, ◌≤◌, ◌<◌, ℕ, List, [], ◌∷◌, ◌++◌, length, inl, some, true,
  false, u32_mod, u64_mod, add64, arith,
}
use spscring.View.{Segment, store_write_pos, store_commit_pos, wake_consumer}
use spscring.Memory.{Memory, store, load, store-Outside, Outside, load-store, load-store_apart}
use spscring.Positions.{add-IsMultiple-of}
use spscring.Varlen.Header.{
  MessageMeta, SlotHeader, header_bytes, store_header, load_slot_size, load_payload_size, load_meta,
  from_bytes,
}
use spscring.Varlen.Writer.{VarlenWriter, store_slot, copy_payload, finish_write, commit}
use spscring.Varlen.Layout.{Fits, header_roundtrip, length-header_bytes}
use spscring.Varlen.Reader.{Message}
use spscring.Varlen.Chain.{Chain, done, item, Chain-append, Chain-kept, load_meta-agree}
use spscring.Varlen.Valid.{IsValid, head_index, wrap_padding, taken, granted}

-- The fields of a message's meta fit their types.
pub record MetaFits (meta : MessageMeta) : Type 0 where
  pub user_data : meta.user_data < u64_mod
  pub timestamp_ns : meta.timestamp_ns < u64_mod
  pub schema_id : meta.schema_id < u32_mod
  pub flags : meta.flags < u32_mod

-- The messages between `read_pos` and `commit_pos`.
abbrev pub Holds : Segment → List Message → Type 0
Holds s ms = Chain s.bytes s.data_capacity s.data_alignment s.commit_pos s.read_pos ms

-- The segment with the payload in the slot that was taken, and then committed.
abbrev pub filled : ℕ → List ℕ → MessageMeta → Segment → Segment
filled needed xs meta s =
    let t = taken needed (length xs) meta s in
    record t { bytes = store t.bytes (head_index s + 32) xs }

abbrev pub sent : ℕ → List ℕ → MessageMeta → Segment → Segment
sent needed xs meta s =
    wake_consumer (store_commit_pos (s.write_pos + needed) (filled needed xs meta s))

module _ (needed : ℕ) (xs : List ℕ) (meta : MessageMeta) (w : VarlenWriter) (s : Segment)
    (v : IsValid w s) (e : w.pending ≡ false)
    (below : s.write_pos + needed ≤ s.read_pos + s.data_capacity) (fit : needed ≤ wrap_padding s)
    (holds : 32 + length xs ≤ needed) (small : needed < u32_mod)
    (step : needed % s.data_alignment ≡ 0) (meta_fits : MetaFits meta) where
  abbrev at : ℕ
  at = head_index s

  abbrev header : SlotHeader
  header = record { slot_size = needed; payload_size = length xs; meta = meta }

  abbrev after_header : Memory
  after_header = store_header s.bytes at header

  abbrev pub after_payload : Memory
  after_payload = store after_header (at + 32) xs

  header-Fits : Fits header
  header-Fits = record {
    slot_size = small;
    payload_size = omega arith;
    user_data = meta_fits.user_data;
    timestamp_ns = meta_fits.timestamp_ns;
    schema_id = meta_fits.schema_id;
    flags = meta_fits.flags;
  }

  kept_header :
      (from n : ℕ) → from + n ≤ at + 32 → load after_payload from n ≡ load after_header from n
  kept_header from n h = load-store_apart after_header (at + 32) xs from n (inl h)

  pub header_back :
      (load_slot_size after_payload at ≡ needed)
      × (load_payload_size after_payload at ≡ length xs)
      × (load_meta after_payload at ≡ meta)
  unfolding load_slot_size load_payload_size
  header_back =
      let (size, payload, m) = header_roundtrip s.bytes at header header-Fits in
      (
        ap from_bytes (kept_header at 4 (omega arith)) ∙ size,
        ap from_bytes (kept_header (at + 4) 4 (omega arith)) ∙ payload,
        load_meta-agree after_payload after_header at (λ from n _ h. kept_header from n h) ∙ m,
      )

  pub in_region : at + needed ≤ s.data_capacity
  in_region = omega (arith, mod-lt s.write_pos v.room)

  pub untouched : (i : ℕ) → Outside at needed i → s.bytes i ≡ after_payload i
  unfolding store_header
  untouched i out = sym (
      store-Outside after_header (at + 32) xs i (ground (arith, out))
      ∙ store-Outside s.bytes at (header_bytes header) i
          (ground (arith, out, length-header_bytes header)))

  -- The ring holds one message more.
  pub Holds-sent :
      {ms : List Message}
      → 0 < length xs
      → Holds s ms
      → Holds (sent needed xs meta s) (ms ++ record { payload = xs; meta = meta } ∷ [])
  unfolding store_write_pos store_commit_pos wake_consumer store_slot
  Holds-sent {ms} nonempty c =
      let end = s.write_pos + needed in
      let (size, payload, m) = header_back in
      let kept =
        Chain-kept s.bytes after_payload s.data_capacity s.write_pos needed (omega arith) in_region
          (λ i lt out. untouched i out) c (omega arith) below in
      Chain-append
        (subst (λ p. Chain after_payload s.data_capacity s.data_alignment p s.read_pos ms)
          (sym (v.free e)) kept)
        (item needed (record { payload = xs; meta = meta }) step nonempty holds in_region size
          payload m (load-store after_header (at + 32) xs) (done refl))

  abbrev pub outstanding : VarlenWriter
  outstanding = record w { pending = true; last_position = s.write_pos }

  abbrev pub released : VarlenWriter
  released = record w { pending = false; last_position = s.write_pos }

  copy_payload-taken :
      (source : Memory)
      → 0 < length xs
      → load source 0 (length xs) ≡ xs
      → copy_payload
          (length xs)
          (some source)
          (granted s, outstanding, taken needed (length xs) meta s)
        ≡ (granted s, outstanding, filled needed xs meta s)
  unfolding copy_payload store_slot store_write_pos
  copy_payload-taken source nonempty given = rw given (ground arith)

  pub commit-filled :
      s.write_pos + needed < u64_mod
      → commit s.write_pos outstanding (filled needed xs meta s) ≡ (released, sent needed xs meta s)
  unfolding commit store_slot store_write_pos
  commit-filled room =
      let sum : add64 s.write_pos needed ≡ s.write_pos + needed = omega arith in
      rw (header_back.0, sum) (ground arith)

  -- Copying the payload in and committing the slot.
  pub finish_write-sent :
      (source : Memory)
      → 0 < length xs
      → load source 0 (length xs) ≡ xs
      → s.write_pos + needed < u64_mod
      → finish_write (
          copy_payload
            (length xs)
            (some source)
            (granted s, outstanding, taken needed (length xs) meta s))
        ≡ (true, released, sent needed xs meta s)
  unfolding finish_write
  finish_write-sent source nonempty given room =
      ap finish_write (copy_payload-taken source nonempty given)
      ∙ ap (λ r. (true, r.0, r.1)) (commit-filled room)

  -- Nothing is reserved afterwards.
  pub sent-IsValid : IsValid released (sent needed xs meta s)
  unfolding store_write_pos store_commit_pos wake_consumer store_slot
  sent-IsValid =
      let aligned = add-IsMultiple-of s.data_alignment s.write_pos needed v.write_slot step in
      record {
        ring = record {
          alignment = v.alignment;
          word = v.word;
          room = v.room;
          aligned = v.aligned;
        };
        read_le = omega arith;
        commit_le = omega arith;
        write_le = below;
        read_slot = v.read_slot;
        commit_slot = aligned;
        write_slot = aligned;
        free = λ _. refl;
        reserved = λ h. cc;
      }

  -- The slot is outstanding.
  pub taken-IsValid : IsValid outstanding (taken needed (length xs) meta s)
  unfolding store_write_pos store_slot
  taken-IsValid =
      let aligned = add-IsMultiple-of s.data_alignment s.write_pos needed v.write_slot step in
      record {
        ring = record {
          alignment = v.alignment;
          word = v.word;
          room = v.room;
          aligned = v.aligned;
        };
        read_le = omega arith;
        commit_le = omega arith;
        write_le = below;
        read_slot = v.read_slot;
        commit_slot = v.commit_slot;
        write_slot = aligned;
        free = λ h. cc;
        reserved = λ _. (
          v.free e,
          subst (λ p. p + load_slot_size after_header (p % s.data_capacity) ≡ s.write_pos + needed)
              (v.free e)
              (ap (λ t. s.write_pos + t) (header_roundtrip s.bytes at header header-Fits).0),
        );
      }
