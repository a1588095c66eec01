-- ===== src/Varlen/Chain.antt =====
-- The slots between two positions of the data region, and the messages in them.
use mathlib.Core.Path.{subst}
use native.Mathlib.Nat.{mod-add-mod, mod-eq_of_lt, mod-eq-sub-mod, mod-lt}
use native.Mathlib.Decide.{dec_lt}
use spscring.Base.{
  ℕ, ◌+◌, ◌-◌, ◌%◌, ◌≤◌, ◌<◌, ◌≡◌, ◌≢◌, sym, ap, ◌∙◌, ◌⊎◌, inl, inr, List, [], ◌∷◌, ◌++◌, length,
  arith,
}
use spscring.Memory.{Memory, load, load-agree, Outside}
use spscring.Varlen.Header.{load_slot_size, load_payload_size, load_meta, from_bytes}
use spscring.Varlen.Reader.{Message}

-- From a position on up to `end`: padding slots, which hold no payload, and slots with a message.
-- No slot runs over the end of the region.
pub data Chain (m : Memory) (capacity alignment end : ℕ) : ℕ → List Message → Type 0 where
  done : {pos : ℕ} → pos ≡ end → Chain m capacity alignment end pos []
  pad :
      {pos : ℕ} {ms : List Message} (size : ℕ)
      → size % alignment ≡ 0
      → 8 ≤ size
      → pos % capacity + size ≤ capacity
      → load_slot_size m (pos % capacity) ≡ size
      → load_payload_size m (pos % capacity) ≡ 0
      → Chain m capacity alignment end (pos + size) ms
      → Chain m capacity alignment end pos ms
  item :
      {pos : ℕ} {ms : List Message} (size : ℕ) (x : Message)
      → size % alignment ≡ 0
      → 0 < length x.payload
      → 32 + length x.payload ≤ size
      → pos % capacity + size ≤ capacity
      → load_slot_size m (pos % capacity) ≡ size
      → load_payload_size m (pos % capacity) ≡ length x.payload
      → load_meta m (pos % capacity) ≡ x.meta
      → load m (pos % capacity + 32) (length x.payload) ≡ x.payload
      → Chain m capacity alignment end (pos + size) ms
      → Chain m capacity alignment end pos (x ∷ ms)

pub Chain-le :
    {m : Memory} {capacity alignment end pos : ℕ} {ms : List Message}
    → Chain m capacity alignment end pos ms
    → pos ≤ end
Chain-le (done e) = omega arith
Chain-le (pad size al h fit a b c) = omega (arith, Chain-le c)
Chain-le (item size x al p q fit a b d e c) = omega (arith, Chain-le c)

-- Two stretches of slots in a row.
pub Chain-append :
    {m : Memory} {capacity alignment mid end pos : ℕ} {xs ys : List Message}
    → Chain m capacity alignment mid pos xs
    → Chain m capacity alignment end mid ys
    → Chain m capacity alignment end pos (xs ++ ys)
Chain-append {m} {capacity} {alignment} {end = end} {ys = ys} (done e) k =
    subst (λ p. Chain m capacity alignment end p ys) (sym e) k
Chain-append (pad size al h fit a b c) k = pad size al h fit a b (Chain-append c k)
Chain-append (item size x al p q fit a b d e c) k =
    item size x al p q fit a b d e (Chain-append c k)

-- A stretch of n bytes that follows one of k bytes within a round does not meet it, if neither
-- runs over the end.
pub apart :
    (capacity p w k n : ℕ)
    → p + k ≤ w
    → w + n ≤ p + capacity
    → 0 < n
    → p % capacity + k ≤ capacity
    → w % capacity + n ≤ capacity
    → (p % capacity + k ≤ w % capacity) ⊎ (w % capacity + n ≤ p % capacity)
apart capacity p w k n below above pos fit fit' =
    let d = w - p in
    let back : p + d ≡ w = omega arith in
    let turn : (p % capacity + d) % capacity ≡ w % capacity =
      mod-add-mod p capacity d ∙ ap (λ t. t % capacity) back in
    elim (dec_lt (p % capacity + d) capacity) [
      | yes lt ↦ inl (omega (arith, turn, mod-eq_of_lt lt))
      | no ge ↦
          let small : p % capacity + d - capacity < capacity =
            omega (arith, mod-lt p {m = capacity} (omega arith)) in
          inr (
            omega (
              arith,
              turn,
              mod-eq-sub-mod {n = p % capacity + d} {m = capacity} (omega arith),
              mod-eq_of_lt small,
            ))
    ]

pub load_meta-agree :
    (m k : Memory) (at : ℕ)
    → ((from len : ℕ) → at ≤ from → from + len ≤ at + 32 → load m from len ≡ load k from len)
    → load_meta m at ≡ load_meta k at
unfolding load_meta
load_meta-agree m k at h = λ i. record {
  user_data = from_bytes (h (at + 8) 8 (omega arith) (omega arith) i);
  timestamp_ns = from_bytes (h (at + 16) 8 (omega arith) (omega arith) i);
  schema_id = from_bytes (h (at + 24) 4 (omega arith) (omega arith) i);
  flags = from_bytes (h (at + 28) 4 (omega arith) (omega arith) i);
}

-- Both memories show a reader the same slot at this index.
pub record SameFront (m k : Memory) (at : ℕ) : Type 0 where
  pub payload_size : load_payload_size m at ≡ load_payload_size k at
  pub meta : load_payload_size m at ≢ 0 → load_meta m at ≡ load_meta k at
  pub payload :
      load_payload_size m at ≢ 0
      → load m (at + 32) (load_payload_size m at) ≡ load k (at + 32) (load_payload_size m at)

-- A write of n bytes at position w, all within the region or at its end, leaves what lies in
-- slots before w and less than a round back.
module _ (m k : Memory) (capacity w n : ℕ) (pos : 0 < n) (fits : w % capacity + n ≤ capacity)
    (same : (i : ℕ) → i < capacity → Outside (w % capacity) n i → m i ≡ k i) where
  load-kept :
      (p size from len : ℕ)
      → p + size ≤ w
      → w + n ≤ p + capacity
      → p % capacity + size ≤ capacity
      → p % capacity ≤ from
      → from + len ≤ p % capacity + size
      → load m from len ≡ load k from len
  load-kept p size from len below above fit low high =
      let clear = apart capacity p w size n below above pos fit fits in
      load-agree m k from len (λ i a b. same i (omega arith) (ground arith))

  pub Chain-kept :
      {alignment end p : ℕ} {ms : List Message}
      → Chain m capacity alignment end p ms
      → end ≤ w
      → w + n ≤ p + capacity
      → Chain k capacity alignment end p ms
  unfolding load_slot_size load_payload_size load_meta
  Chain-kept (done e) below above = done e
  Chain-kept {p = p} (pad size al h fit a b c) below above =
      let at = p % capacity in
      let le = Chain-le c in
      let kept = λ (from len : ℕ) (low : at ≤ from) (high : from + len ≤ at + size).
        load-kept p size from len (omega arith) above fit low high in
      pad size al h fit (ap from_bytes (sym (kept at 4 (omega arith) (omega arith))) ∙ a)
        (ap from_bytes (sym (kept (at + 4) 4 (omega arith) (omega arith))) ∙ b)
        (Chain-kept c below (omega arith))
  Chain-kept {p = p} (item size x al q r fit a b d e c) below above =
      let at = p % capacity in
      let le = Chain-le c in
      let kept = λ (from len : ℕ) (low : at ≤ from) (high : from + len ≤ at + size).
        load-kept p size from len (omega arith) above fit low high in
      item size x al q r fit (ap from_bytes (sym (kept at 4 (omega arith) (omega arith))) ∙ a)
        (ap from_bytes (sym (kept (at + 4) 4 (omega arith) (omega arith))) ∙ b)
        (load_meta-agree k m at
            (λ from len low high. sym (kept from len (omega arith) (omega arith)))
          ∙ d)
        (sym (kept (at + 32) (length x.payload) (omega arith) (omega arith)) ∙ e)
        (Chain-kept c below (omega arith))

  -- What a reader finds in the slot at p: the size of the payload, and the message if there is one.
  pub Chain-front_kept :
      {alignment end p : ℕ} {ms : List Message}
      → Chain m capacity alignment end p ms
      → p < end
      → end ≤ w
      → w + n ≤ p + capacity
      → SameFront m k (p % capacity)
  unfolding load_payload_size load_meta
  Chain-front_kept (done e) lt below above = absurd (omega arith)
  Chain-front_kept {p = p} (pad size al h fit a b c) lt below above =
      let at = p % capacity in
      let le = Chain-le c in
      record {
        payload_size =
            ap from_bytes
              (load-kept p size (at + 4) 4 (omega arith) above fit (omega arith) (omega arith));
        meta = λ some_there. absurd (some_there b);
        payload = λ some_there. absurd (some_there b);
      }
  Chain-front_kept {p = p} (item size x al q r fit a b d e c) lt below above =
      let at = p % capacity in
      let le = Chain-le c in
      let kept = λ (from len : ℕ) (low : at ≤ from) (high : from + len ≤ at + size).
        load-kept p size from len (omega arith) above fit low high in
      record {
        payload_size = ap from_bytes (kept (at + 4) 4 (omega arith) (omega arith));
        meta = λ _.
            load_meta-agree m k at (λ from len low high. kept from len (omega arith) (omega arith));
        payload = λ _. kept (at + 32) (load_payload_size m at) (omega arith) (omega (arith, b));
      }
