-- ===== src/Wait/Primitives.antt =====
-- Waiting and waking use the same primitive of the system.
use spscring.Base.{ℕ, ◌≡◌, refl, Option, none, some, Bool-cases, inl, inr}
use spscring.Wait.{Timeout, indefinite, millis}
use spscring.Wait.Windows.{has_native_wait_api}
use spscring.Wait.Platforms.{
  Platform, linux, windows, apple, elsewhere, has_os_sync, Call, futex_wait, futex_wake,
  os_sync_wait, os_sync_wait_with_timeout, os_sync_wake_any, os_sync_wake_all, ulock_wait,
  ulock_wake, wait_on_address, wake_by_address_single, wake_by_address_all, wait_call,
  wait_for_call, notify_one_call, notify_all_call, futex_wait_call, windows_wait_call,
  darwin_wait_call, futex_wait_for_call, windows_wait_for_call, darwin_wait_for_call,
  futex_notify_one_call, windows_notify_one_call, darwin_notify_one_call, futex_notify_all_call,
  windows_notify_all_call, darwin_notify_all_call,
}

pub data Primitive : Type 0 where
  futex : Primitive
  os_sync : Primitive
  ulock : Primitive
  address_wait : Primitive

abbrev pub primitive : Call → Primitive
primitive (futex_wait _) = futex
primitive (futex_wake _) = futex
primitive os_sync_wait = os_sync
primitive (os_sync_wait_with_timeout _) = os_sync
primitive os_sync_wake_any = os_sync
primitive os_sync_wake_all = os_sync
primitive (ulock_wait _ _) = ulock
primitive (ulock_wake _) = ulock
primitive (wait_on_address _) = address_wait
primitive wake_by_address_single = address_wait
primitive wake_by_address_all = address_wait

abbrev pub primitive_of : Option Call → Option Primitive
primitive_of none = none
primitive_of (some call) = some (primitive call)

-- On every platform a timed wait, atomic_notify_one and atomic_notify_all use the primitive that
-- atomic_wait uses, and none of them makes a call where atomic_wait polls.
pub same_primitive :
    (p : Platform) (t : Timeout) (remaining_ns : ℕ)
    → (primitive_of (wait_for_call p t remaining_ns) ≡ primitive_of (wait_call p))
      × (primitive_of (notify_one_call p) ≡ primitive_of (wait_call p))
      × (primitive_of (notify_all_call p) ≡ primitive_of (wait_call p))
unfolding wait_for_call wait_call notify_one_call notify_all_call futex_wait_call windows_wait_call
    darwin_wait_call futex_wait_for_call windows_wait_for_call darwin_wait_for_call
    futex_notify_one_call windows_notify_one_call darwin_notify_one_call futex_notify_all_call
    windows_notify_all_call darwin_notify_all_call
same_primitive linux indefinite ns = (refl, refl, refl)
same_primitive linux (millis ms) ns = (refl, refl, refl)
same_primitive (windows api tuning) indefinite ns = elim (Bool-cases (has_native_wait_api api)) [
  | inl yes_ ↦ rw yes_ (refl, refl, refl)
  | inr no_ ↦ rw no_ (refl, refl, refl)
]
same_primitive (windows api tuning) (millis ms) ns = elim (Bool-cases (has_native_wait_api api)) [
  | inl yes_ ↦ rw yes_ (refl, refl, refl)
  | inr no_ ↦ rw no_ (refl, refl, refl)
]
same_primitive (apple tier available) indefinite ns =
    elim (Bool-cases (has_os_sync tier available)) [
      | inl yes_ ↦ rw yes_ (refl, refl, refl)
      | inr no_ ↦ rw no_ (refl, refl, refl)
    ]
same_primitive (apple tier available) (millis ms) ns =
    elim (Bool-cases (has_os_sync tier available)) [
      | inl yes_ ↦ rw yes_ (refl, refl, refl)
      | inr no_ ↦ rw no_ (refl, refl, refl)
    ]
same_primitive elsewhere t ns = (refl, refl, refl)
