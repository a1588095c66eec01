-- ===== src/Varlen/Padding.antt =====
-- The padding slot: what it leaves valid, and that no message is lost or made up by it.
use native.Mathlib.Nat.{mod-lt, mod-add-mod, mod_self, zero-mod}
use spscring.Base.{
  ◌+◌, ◌%◌, ◌≤◌, ◌<◌, ◌≡◌, refl, sym, ap, ◌∙◌, List, [], append-nil, false, u32_mod, arith,
}
use mathlib.Core.Path.{subst}
use spscring.Positions.{add-IsMultiple-of, sub-IsMultiple, mod-IsMultiple, gap-of-multiples}
use spscring.Memory.{store-Outside}
use spscring.View.{Segment, store_write_pos, store_commit_pos, wake_consumer}
use spscring.Varlen.Header.{SlotHeader, no_meta, header_bytes, store_header}
use spscring.Varlen.Writer.{VarlenWriter, store_slot}
use spscring.Varlen.Reader.{Message}
use spscring.Varlen.Layout.{header_roundtrip, length-header_bytes}
use spscring.Varlen.Chain.{Chain, done, pad, Chain-append, Chain-kept}
use spscring.Varlen.Valid.{IsValid, head_index, wrap_padding, padded}

abbrev pub padding_header : Segment → SlotHeader
padding_header s = record { slot_size = wrap_padding s; payload_size = 0; meta = no_meta }

module _ (w : VarlenWriter) (s : Segment) (v : IsValid w s) where
  pub wrap_padding-IsMultiple : wrap_padding s % s.data_alignment ≡ 0
  wrap_padding-IsMultiple =
      sub-IsMultiple s.data_alignment (head_index s) s.data_capacity
        (mod-IsMultiple s.data_alignment s.data_capacity v.room v.aligned s.write_pos v.write_slot)
        v.aligned (omega (arith, mod-lt s.write_pos v.room))

  pub wrap_padding-bounds :
      (s.data_alignment ≤ wrap_padding s) × (head_index s + wrap_padding s ≡ s.data_capacity)
  wrap_padding-bounds =
      let lt = mod-lt s.write_pos v.room in
      let le =
        gap-of-multiples s.data_alignment 0 (wrap_padding s) (zero-mod s.data_alignment)
          wrap_padding-IsMultiple (omega arith) in
      (omega arith, omega arith)

  -- Behind the padding the ring starts over.
  pub head_index-padded : (s.write_pos + wrap_padding s) % s.data_capacity ≡ 0
  head_index-padded =
      sym (mod-add-mod s.write_pos s.data_capacity (wrap_padding s))
      ∙ ap (λ t. t % s.data_capacity) wrap_padding-bounds.1
      ∙ mod_self s.data_capacity

  pub padded-IsValid :
      w.pending ≡ false
      → s.write_pos + wrap_padding s ≤ s.read_pos + s.data_capacity
      → IsValid w (padded s)
  unfolding store_write_pos store_commit_pos wake_consumer store_slot
  padded-IsValid e under =
      let step =
        add-IsMultiple-of s.data_alignment s.write_pos (wrap_padding s) v.write_slot
          wrap_padding-IsMultiple in
      record {
        ring = record {
          alignment = v.alignment;
          word = v.word;
          room = v.room;
          aligned = v.aligned;
        };
        read_le = omega arith;
        commit_le = omega arith;
        write_le = under;
        read_slot = v.read_slot;
        commit_slot = step;
        write_slot = step;
        free = λ _. refl;
        reserved = λ h. cc;
      }

  -- The messages stay, and the padding comes behind them.
  pub Chain-padded :
      {ms : List Message}
      → w.pending ≡ false
      → s.write_pos + wrap_padding s ≤ s.read_pos + s.data_capacity
      → wrap_padding s < u32_mod
      → Chain s.bytes s.data_capacity s.data_alignment s.commit_pos s.read_pos ms
      → let t = padded s in
        Chain t.bytes t.data_capacity t.data_alignment t.commit_pos t.read_pos ms
  unfolding store_write_pos store_commit_pos wake_consumer store_slot store_header
  Chain-padded {ms} e under small c =
      let end = s.write_pos + wrap_padding s in
      let k = store_header s.bytes (head_index s) (padding_header s) in
      let (low, whole) = wrap_padding-bounds in
      let (size, payload, _) = header_roundtrip s.bytes (head_index s) (padding_header s) (record {
        slot_size = small;
        payload_size = omega arith;
        user_data = omega arith;
        timestamp_ns = omega arith;
        schema_id = omega arith;
        flags = omega arith;
      }) in
      let kept =
        Chain-kept s.bytes k s.data_capacity s.write_pos (wrap_padding s) (omega (arith, v.word))
          (omega arith)
          (λ i lt out. sym (
            store-Outside s.bytes (head_index s) (header_bytes (padding_header s)) i
              (ground (arith, out, length-header_bytes (padding_header s)))))
          c (omega arith) under in
      let behind : Chain k s.data_capacity s.data_alignment end s.write_pos [] =
        pad (wrap_padding s) wrap_padding-IsMultiple (omega (arith, v.word)) (omega arith) size
          payload (done refl) in
      subst (Chain k s.data_capacity s.data_alignment end s.read_pos) (append-nil ms) (
        Chain-append
          (subst (λ p. Chain k s.data_capacity s.data_alignment p s.read_pos ms) (sym (v.free e))
            kept)
          behind)
