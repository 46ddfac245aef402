-- ===== src/Shared/Slots/Limit.antt =====
-- At most `max` holders of one key at once.
use native.Mathlib.Nat.{le_refl}
use bunmail.Prelude.{
  ap, ℕ, suc, ◌+◌, ◌≤◌, String, ◌&&◌, ◌==◌, List, [], ◌∷◌, if◌then◌else◌, arith, length,
  Option-cases, Bool-cases, inl, inr,
}
use bunmail.Dict.{
  get, set, has, delete, length-set, length-delete-le, length-keep-le, AllValues, AllValues-get,
  AllValues-set, AllValues-delete,
}
use bunmail.Shared.Slots.{
  SlotOptions, MemorySlots, MemorySlotSemaphore, running, drop, slots_of, live, tidy, grants, admit,
  acquire, renew, release, prune,
}

pub data Call : Type 0 where
  acquires : String → String → ℕ → ℕ → Call
  renews : String → String → ℕ → Call
  releases : String → String → Call
  prunes : Call

-- The calls of clients that all use one limit, at their times.
pub step : ℕ → MemorySlotSemaphore → ℕ × Call → MemorySlotSemaphore
step max m (at, acquires key holder lease_ms queue_ttl_ms) =
    (acquire m key holder (record { max = max; lease_ms = lease_ms; queue_ttl_ms = queue_ttl_ms })
      at).0
step max m (at, renews key holder lease_ms) = (renew m key holder lease_ms at).0
step max m (at, releases key holder) = release m key holder
step max m (at, prunes) = (prune m at).0

pub run : ℕ → MemorySlotSemaphore → List (ℕ × Call) → MemorySlotSemaphore
unfolding step
run max m [] = m
run max m (c ∷ cs) = run max (step max m c) cs

module _ (n : ℕ) where
  abbrev pub Fits : MemorySlots → Type 0
  Fits s = length s.holders ≤ n

  abbrev pub AllFit : MemorySlotSemaphore → Type 0
  AllFit = AllValues Fits

  slots_of-Fits : (m : MemorySlotSemaphore) (key : String) → AllFit m → Fits (slots_of m key)
  slots_of-Fits m key h = ground (arith, AllValues-get Fits m key h)

  drop-Fits : (s : MemorySlots) (at : ℕ) → Fits s → Fits (drop s at).0
  unfolding drop
  drop-Fits s at h = omega (arith, length-keep-le (running at) s.holders)

  tidy-AllFit :
      (m : MemorySlotSemaphore) (key : String) (s : MemorySlots)
      → AllFit m
      → Fits s
      → AllFit (tidy m key s)
  unfolding tidy
  tidy-AllFit m key s h f = elim (Bool-cases (length s.holders == 0 && length s.queue == 0)) [
    | inl idle ↦ rw idle (AllValues-delete Fits m key h)
    | inr busy ↦ rw busy (AllValues-set Fits m key s h f)
  ]

  admit-Fits :
      (s : MemorySlots) (holder : String) (o : SlotOptions) (at : ℕ)
      → o.max ≤ n
      → Fits s
      → Fits (admit s holder o at).0
  unfolding admit grants
  admit-Fits s holder o at m f = ground (arith, length-set s.holders holder (at + o.lease_ms))

  acquire-AllFit :
      (m : MemorySlotSemaphore) (key holder : String) (o : SlotOptions) (at : ℕ)
      → o.max ≤ n
      → AllFit m
      → AllFit (acquire m key holder o at).0
  unfolding acquire live
  acquire-AllFit m key holder o at le h = AllValues-set Fits m key _ h (
      admit-Fits (drop (slots_of m key) at).0 holder o at le
        (drop-Fits (slots_of m key) at (slots_of-Fits m key h)))

  renew-AllFit :
      (m : MemorySlotSemaphore) (key holder : String) (lease_ms at : ℕ)
      → AllFit m
      → AllFit (renew m key holder lease_ms at).0
  unfolding renew
  renew-AllFit m key holder lease_ms at h = elim (Option-cases (get m key)) [
    | inl gone ↦ rw (gone, renew) h
    | inr (slots, e) ↦
        let fits : Fits slots = rw e at (AllValues-get Fits m key h) in
        let s = (drop slots at).0 in
        let f : Fits s = drop-Fits slots at fits in
        rw (e, renew)
          (elim (Bool-cases (has s.holders holder)) [
            | inl held ↦ rw held (
                tidy-AllFit m key (record s { holders = set s.holders holder (at + lease_ms) }) h
                  (omega (
                    arith,
                    length-set s.holders holder (at + lease_ms),
                    ap (λ b. if b then length s.holders else suc (length s.holders)) held,
                  )))
            | inr free ↦ rw free (tidy-AllFit m key s h f)
          ])
  ]

  release-AllFit :
      (m : MemorySlotSemaphore) (key holder : String) → AllFit m → AllFit (release m key holder)
  unfolding release
  release-AllFit m key holder h = elim (Option-cases (get m key)) [
    | inl gone ↦ rw (gone, release) h
    | inr (s, e) ↦
        let fits : Fits s = rw e at (AllValues-get Fits m key h) in
        rw (e, release)
          (tidy-AllFit m key
            (record { holders = delete s.holders holder; queue = delete s.queue holder }) h
            (omega (arith, length-delete-le s.holders holder)))
  ]

  prune-AllFit : (m : MemorySlotSemaphore) (at : ℕ) → AllFit m → AllFit (prune m at).0
  unfolding prune
  prune-AllFit [] at h = tt
  prune-AllFit ((key, slots) ∷ m) at (f, h) =
      tidy-AllFit ((key, slots) ∷ (prune m at).0) key (drop slots at).0 (f, prune-AllFit m at h)
        (drop-Fits slots at f)

-- The limit: however clients that use one limit acquire, renew and release, and whatever lapses
-- between, no key ever has more holders than the limit.
pub run-AllFit :
    (max : ℕ) (m : MemorySlotSemaphore) (cs : List (ℕ × Call))
    → AllFit max m
    → AllFit max (run max m cs)
unfolding run
run-AllFit max m [] h = h
run-AllFit max m ((at, acquires key holder lease_ms queue_ttl_ms) ∷ cs) h =
    let o : SlotOptions = record { max = max; lease_ms = lease_ms; queue_ttl_ms = queue_ttl_ms } in
    run-AllFit max (acquire m key holder o at).0 cs
      (acquire-AllFit max m key holder o at (le_refl max) h)
run-AllFit max m ((at, renews key holder lease_ms) ∷ cs) h =
    run-AllFit max (renew m key holder lease_ms at).0 cs
      (renew-AllFit max m key holder lease_ms at h)
run-AllFit max m ((at, releases key holder) ∷ cs) h =
    run-AllFit max (release m key holder) cs (release-AllFit max m key holder h)
run-AllFit max m ((at, prunes) ∷ cs) h = run-AllFit max (prune m at).0 cs (prune-AllFit max m at h)
