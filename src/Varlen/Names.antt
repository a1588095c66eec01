-- ===== src/Varlen/Names.antt =====
-- include/spscring/reserve_result.hpp and message_meta.hpp: the names of the statuses, the test of a
-- result, and the flags of a message.
use Prim.Native.String.{String}
use text.Mathlib.Text.{◌==◌}
use spscring.Base.{
  ℕ, ◌≡◌, refl, ap, ◌∙◌, sym, Bool, true, false, bit_and, ◌⊎◌, inl, inr, if◌then◌else◌,
}
use spscring.Varlen.Writer.{
  ReserveStatus, ok, full, timeout, message_too_large, pending_commit, ReserveResult,
}

-- The `default` branch, for a value outside the enumeration, is left out.
unfoldable reserve_status_cstr : ReserveStatus → String
reserve_status_cstr ok = "ok"
reserve_status_cstr full = "full"
reserve_status_cstr timeout = "timeout"
reserve_status_cstr message_too_large = "message_too_large"
reserve_status_cstr pending_commit = "pending_commit"

-- explicit operator bool
unfoldable succeeded : ReserveResult → Bool
succeeded r = elim r.status [ ok ↦ true | _ ↦ false ]

data MessageFlag : Type 0 where
  priority_high : MessageFlag
  compressed : MessageFlag
  response : MessageFlag
  cancel : MessageFlag

-- The values of `message_flags`; flag_none is 0.
unfoldable flag_value : MessageFlag → ℕ
flag_value priority_high = 1
flag_value compressed = 2
flag_value response = 4
flag_value cancel = 8

-- The status that a name stands for.
status_of : String → ReserveStatus
status_of name =
    if name == "ok"
    then ok
    else if name == "full"
    then full
    else if name == "timeout"
    then timeout
    else if name == "message_too_large"
    then message_too_large
    else pending_commit

status_of-reserve_status_cstr :
    (status : ReserveStatus) → status_of (reserve_status_cstr status) ≡ status
unfolding status_of reserve_status_cstr
status_of-reserve_status_cstr ok = refl
status_of-reserve_status_cstr full = refl
status_of-reserve_status_cstr timeout = refl
status_of-reserve_status_cstr message_too_large = refl
status_of-reserve_status_cstr pending_commit = refl

-- Different statuses have different names.
reserve_status_cstr-injective :
    (a b : ReserveStatus) → reserve_status_cstr a ≡ reserve_status_cstr b → a ≡ b
reserve_status_cstr-injective a b e =
    sym (status_of-reserve_status_cstr a) ∙ ap status_of e ∙ status_of-reserve_status_cstr b

-- Different flags share no bit.
flag_value-apart : (a b : MessageFlag) → (a ≡ b) ⊎ (bit_and (flag_value a) (flag_value b) ≡ 0)
unfolding flag_value
flag_value-apart priority_high priority_high = inl refl
flag_value-apart compressed compressed = inl refl
flag_value-apart response response = inl refl
flag_value-apart cancel cancel = inl refl
flag_value-apart _ _ = inr refl
