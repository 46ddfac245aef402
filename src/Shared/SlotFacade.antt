-- ===== src/Shared/SlotFacade.antt =====
-- src/utils/shared-slots.ts: `sharedSlotSemaphore`, slots in a shared backend or in memory.
-- The backend is a parameter, as for the counters. A grant's text, `l` or `s<generation>`, is a
-- tag. Each operation is one step; the release that `acquire` sends after a failed call, and does
-- not wait for, is made at once.
pub mod Grants
use bunmail.Prelude.{ℕ, suc, String, Bool, true, false, Option, none, some, ◌==◌, if◌then◌else◌}
use bunmail.Shared.Slots
use bunmail.Shared.Slots.{MemorySlotSemaphore, SlotOptions}
use bunmail.Shared.Facade.{StoreTag, local_tag, shared_tag}

pub record SlotBackend (B : Type 0) : Type 0 where
  pub acquire : B → String → String → SlotOptions → ℕ → B × Option Bool
  pub renew : B → String → String → ℕ → ℕ → B × Option Bool
  pub release : B → String → String → ℕ → B × Option (Unit {0})

pub record SharedSlots (B : Type 0) : Type 0 where
  pub installed : Option B
  pub generation : ℕ
  pub local : MemorySlotSemaphore

pub data SlotRenewal : Type 0 where
  renewed lost unavailable : SlotRenewal

module _ {B : Type 0} where
  -- Installing another backend, or none.
  pub replace_backend : SharedSlots B → Option B → SharedSlots B
  replace_backend s next = record s { installed = next; generation = suc s.generation }

  pub is_shared : SharedSlots B → Bool
  is_shared s = elim s.installed [ none ↦ false | some b ↦ true ]

module _ {B : Type 0} (ops : SlotBackend B) where
  pub acquire_local :
      SharedSlots B → String → String → SlotOptions → ℕ → SharedSlots B × Option StoreTag
  acquire_local s key holder o at =
      let (m, granted) = Slots.acquire s.local key holder o at in
      (record s { local = m }, if granted then some local_tag else none)

  pub acquire : SharedSlots B → String → String → SlotOptions → ℕ → SharedSlots B × Option StoreTag
  unfolding acquire_local
  acquire s key holder o at = elim s.installed [
    | none ↦ acquire_local s key holder o at
    | some b ↦
        let (b', reply) = ops.acquire b key holder o at in
        elim reply [
          | some granted ↦ (
            record s { installed = some b' },
            if granted then some (shared_tag s.generation) else none,
          )
          | none ↦
              acquire_local (record s { installed = some (ops.release b' key holder at).0 }) key
                holder o at
        ]
  ]

  abbrev renewal : Option Bool → SlotRenewal
  renewal (some true) = renewed
  renewal (some false) = lost
  renewal none = unavailable

  pub renew : SharedSlots B → String → String → StoreTag → ℕ → ℕ → SharedSlots B × SlotRenewal
  renew s key holder local_tag lease_ms at =
      let (m, held) = Slots.renew s.local key holder lease_ms at in
      (record s { local = m }, if held then renewed else lost)
  renew s key holder (shared_tag g) lease_ms at = elim s.installed [
    | none ↦ (s, lost)
    | some b ↦
        if g == s.generation
        then (let (b', reply) = ops.renew b key holder lease_ms at in
            (record s { installed = some b' }, renewal reply))
        else (s, lost)
  ]

  pub release : SharedSlots B → String → String → StoreTag → ℕ → SharedSlots B
  release s key holder local_tag at = record s { local = Slots.release s.local key holder }
  release s key holder (shared_tag g) at = elim s.installed [
    | none ↦ s
    | some b ↦
        if g == s.generation
        then record s { installed = some (ops.release b key holder at).0 }
        else s
  ]
