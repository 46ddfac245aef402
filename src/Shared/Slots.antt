-- ===== src/Shared/Slots.antt =====
-- src/utils/shared-slots.ts: `MemorySlotSemaphore`, counting semaphores whose slots are leases.
-- Times are Unix epoch milliseconds and an argument of each operation.
pub mod Limit
pub mod Queue
pub mod Lease
mod Tests
use bunmail.Prelude.{
  ℕ, suc, ◌+◌, ◌-◌, String, Bool, true, false, not, ◌&&◌, List, [], ◌∷◌, Option, none, some, leb,
  ltb, ◌==◌, if◌then◌else◌, str_eq, length,
}
use bunmail.Dict.{Dict, get, has, set, delete, keep, dropped, keys}

pub record SlotOptions : Type 0 where
  pub max : ℕ
  pub lease_ms : ℕ
  pub queue_ttl_ms : ℕ

-- Lease ends by holder, and lapse times by waiter, in arrival order.
pub record MemorySlots : Type 0 where
  pub holders : Dict ℕ
  pub queue : Dict ℕ

abbrev pub no_slots : MemorySlots
no_slots = record { holders = []; queue = [] }

pub running : ℕ → ℕ → Bool
running at until = not (leb until at)

-- The slots that `drop` leaves, and how many entries it removed.
unfoldable pub drop : MemorySlots → ℕ → MemorySlots × ℕ
unfolding running
drop s at = (
  record { holders = keep (running at) s.holders; queue = keep (running at) s.queue },
  dropped (running at) s.holders + dropped (running at) s.queue,
)

-- Keys with a live holder or waiter.
abbrev pub MemorySlotSemaphore : Type 0
MemorySlotSemaphore = Dict MemorySlots

abbrev pub slots_of : MemorySlotSemaphore → String → MemorySlots
slots_of entries key = elim (get entries key) [ none ↦ no_slots | some s ↦ s ]

unfoldable pub live : MemorySlotSemaphore → String → ℕ → MemorySlots
live entries key at = (drop (slots_of entries key) at).0

pub tidy : MemorySlotSemaphore → String → MemorySlots → MemorySlotSemaphore
tidy entries key s =
    if length s.holders == 0 && length s.queue == 0 then delete entries key else set entries key s

unfoldable pub index_of : List String → String → Option ℕ
index_of [] holder = none
index_of (k ∷ ks) holder =
    if str_eq k holder
    then some 0
    else elim (index_of ks holder) [ none ↦ none | some i ↦ some (suc i) ]

-- How many waiters stand before `holder`: all of them if it is not in line yet.
unfoldable pub place : Dict ℕ → String → ℕ
place queue holder = elim (index_of (keys queue) holder) [ none ↦ length queue | some i ↦ i ]

unfoldable pub grants : MemorySlots → String → SlotOptions → Bool
grants s holder o =
    if has s.holders holder
    then true
    else ltb (length s.holders) o.max && ltb (place s.queue holder) (o.max - length s.holders)

unfoldable pub admit : MemorySlots → String → SlotOptions → ℕ → MemorySlots × Bool
admit s holder o at =
    if grants s holder o
    then (
      record { holders = set s.holders holder (at + o.lease_ms); queue = delete s.queue holder },
      true,
    )
    else (record s { queue = set s.queue holder (at + o.queue_ttl_ms) }, false)

unfoldable pub acquire :
    MemorySlotSemaphore → String → String → SlotOptions → ℕ → MemorySlotSemaphore × Bool
acquire entries key holder o at =
    let (s, granted) = admit (live entries key at) holder o at in (set entries key s, granted)

pub renew : MemorySlotSemaphore → String → String → ℕ → ℕ → MemorySlotSemaphore × Bool
unfolding drop tidy
renew entries key holder lease_ms at = elim (get entries key) [
  | none ↦ (entries, false)
  | some slots ↦
      let s = (drop slots at).0 in
      if has s.holders holder
      then (tidy entries key (record s { holders = set s.holders holder (at + lease_ms) }), true)
      else (tidy entries key s, false)
]

pub release : MemorySlotSemaphore → String → String → MemorySlotSemaphore
unfolding tidy
release entries key holder = elim (get entries key) [
  | none ↦ entries
  | some s ↦
      tidy entries key (record { holders = delete s.holders holder; queue = delete s.queue holder })
]

-- The loop of `prune` over the entries.
pub prune : MemorySlotSemaphore → ℕ → MemorySlotSemaphore × ℕ
unfolding drop tidy
prune [] at = ([], 0)
prune ((key, slots) ∷ entries) at =
    let (s, removed) = drop slots at in
    let (rest, more) = prune entries at in (tidy ((key, slots) ∷ rest) key s, removed + more)
