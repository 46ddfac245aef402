-- ===== src/Shared/Slots/Lease.antt =====
-- What a grant is worth: it can be renewed while the lease runs.
use bunmail.Prelude.{ℕ, ◌+◌, ◌<◌, ◌≡◌, String, true, arith}
use bunmail.Dict.{Dict, set, has, delete, keep, get-set_self, get-keep-some}
use bunmail.Shared.Slots.{
  SlotOptions, MemorySlotSemaphore, running, drop, live, admit, acquire, renew,
}

-- An entry that runs is kept by a sweep.
has-keep-running :
    (m : Dict ℕ) (holder : String) (until at : ℕ)
    → at < until
    → has (keep (running at) (set m holder until)) holder ≡ true
unfolding running
has-keep-running m holder until at h = ground (
  arith,
  get-keep-some (running at) (set m holder until) holder until (get-set_self m holder until),
)

-- A slot that was granted is renewed at any time before its lease ends, if nothing else was asked
-- of the semaphore in between.
pub renew-acquire :
    (m : MemorySlotSemaphore) (key holder : String) (o : SlotOptions) (at later lease_ms : ℕ)
    → (acquire m key holder o at).1 ≡ true
    → later < at + o.lease_ms
    → (renew (acquire m key holder o at).0 key holder lease_ms later).1 ≡ true
unfolding acquire admit renew drop
renew-acquire m key holder o at later lease_ms h soon = ground (
  arith,
  get-set_self m key (record {
    holders = set (live m key at).holders holder (at + o.lease_ms);
    queue = delete (live m key at).queue holder;
  }),
  has-keep-running (live m key at).holders holder (at + o.lease_ms) later soon,
)
