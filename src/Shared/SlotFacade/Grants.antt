-- ===== src/Shared/SlotFacade/Grants.antt =====
-- Which store a grant belongs to.
use bunmail.Prelude.{ℕ, ◌+◌, ◌<◌, ◌≡◌, String, Option, some, arith}
use bunmail.Shared.Slots.{SlotOptions}
use bunmail.Shared.Slots.Lease.{renew-acquire}
use bunmail.Shared.Facade.{local_tag, shared_tag}
use bunmail.Shared.SlotFacade.{
  SlotBackend, SharedSlots, lost, renewed, replace_backend, acquire_local, acquire, renew, release,
}

module _ {B : Type 0} (ops : SlotBackend B) where
  -- A grant of a shared backend is lost with it: after another backend is installed, or none, its
  -- renewal says so, and neither that nor its release touches any slot.
  pub renew-replace_backend :
      (s : SharedSlots B) (key holder : String) (o : SlotOptions) (at later lease_ms g : ℕ)
      (next : Option B)
      → (acquire ops s key holder o at).1 ≡ some (shared_tag g)
      → let s' = replace_backend (acquire ops s key holder o at).0 next in
        (renew ops s' key holder (shared_tag g) lease_ms later ≡ (s', lost))
        × (release ops s' key holder (shared_tag g) later ≡ s')
  unfolding acquire acquire_local renew release replace_backend
  renew-replace_backend s key holder o at later lease_ms g next h = ground arith

  -- A slot that is granted in memory, because the backend failed or none is installed, is held in
  -- memory: its renewal at a time within the lease succeeds, whatever backend is installed then.
  pub renew-acquire_local :
      (s : SharedSlots B) (key holder : String) (o : SlotOptions) (at later lease_ms : ℕ)
      (next : Option B)
      → (acquire ops s key holder o at).1 ≡ some local_tag
      → later < at + o.lease_ms
      → (renew ops
          (replace_backend (acquire ops s key holder o at).0 next)
          key
          holder
          local_tag
          lease_ms
          later).1
        ≡ renewed
  unfolding acquire acquire_local renew replace_backend
  renew-acquire_local s key holder o at later lease_ms next h soon =
      ground (arith, renew-acquire s.local key holder o at later lease_ms)
