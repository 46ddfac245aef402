-- ===== src/Shared/Slots/Tests.antt =====
-- Runs of the slot semaphore.
use bunmail.Prelude.{ℕ, ◌≡◌, refl, true, List, [], ◌∷◌, arith}
use bunmail.Shared.Slots.{
  SlotOptions, MemorySlotSemaphore, live, drop, grants, admit, place, index_of, acquire, renew,
}
use bunmail.Shared.Slots.Limit.{Call, acquires, renews, releases, prunes, run, AllFit, run-AllFit}
use bunmail.Shared.Slots.Lease.{renew-acquire}
use bunmail.Shared.Slots.Queue.{acquire_no_overtaking}

abbrev two_slots : SlotOptions
two_slots = record { max = 3; lease_ms = 100; queue_ttl_ms = 20 }

-- One holder, and two in line.
abbrev busy : MemorySlotSemaphore
busy = ("mx", record { holders = ("a", 90) ∷ []; queue = ("b", 70) ∷ ("c", 70) ∷ [] }) ∷ []

abbrev calls : List (ℕ × Call)
calls =
    (1, acquires "mx" "b" 100 20)
    ∷ (2, acquires "mx" "c" 100 20)
    ∷ (3, renews "mx" "a" 50)
    ∷ (4, releases "mx" "b")
    ∷ (200, prunes)
    ∷ []

run-AllFit_example : AllFit 2 (run 2 busy calls)
run-AllFit_example = run-AllFit 2 busy calls (omega arith, tt)

acquire_no_overtaking_example :
    (acquire (acquire busy "mx" "c" two_slots 60).0 "mx" "b" two_slots 60).1 ≡ true
unfolding live drop place index_of acquire admit grants bunmail.Dict.get bunmail.Dict.keep
    bunmail.Dict.keys
acquire_no_overtaking_example =
    acquire_no_overtaking busy "mx" "c" "b" two_slots 60 refl (omega arith) refl

renew-acquire_example : (renew (acquire busy "mx" "b" two_slots 60).0 "mx" "b" 50 159).1 ≡ true
unfolding live drop place index_of acquire admit grants bunmail.Dict.get bunmail.Dict.keep
    bunmail.Dict.keys
renew-acquire_example = renew-acquire busy "mx" "b" two_slots 60 159 50 refl (omega arith)
