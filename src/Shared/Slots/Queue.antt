-- ===== src/Shared/Slots/Queue.antt =====
-- First come, first served.
use bunmail.Prelude.{
  ap, ℕ, suc, ◌+◌, ◌≤◌, ◌<◌, ◌≡◌, refl, String, Bool, true, false, [], ◌∷◌, if◌then◌else◌, arith,
  str_eq, length,
}
use bunmail.Dict.{Dict, set, has, delete, keep, keys, length-set, length-keep-le, get-set_self}
use bunmail.Shared.Slots.{
  SlotOptions, MemorySlotSemaphore, running, drop, slots_of, live, index_of, place, grants, admit,
  acquire,
}

place_cons :
    (k : String) (t : ℕ) (q : Dict ℕ) (w : String)
    → place ((k, t) ∷ q) w ≡ (if str_eq k w then 0 else suc (place q w))
unfolding place index_of keys
place_cons k t q w = ground arith

place_nil : (w : String) → place [] w ≡ 0
unfolding place index_of keys
place_nil w = refl

-- Who leaves the line moves nobody who stands before it.
place-delete :
    (q : Dict ℕ) (h w : String) → place q w < place q h → place (delete q h) w ≡ place q w
unfolding delete
place-delete [] h w lt = refl
place-delete ((k, t) ∷ q) h w lt = ground (
  arith,
  place_cons k t q w,
  place_cons k t q h,
  place_cons k t (delete q h) w,
  place-delete q h w,
)

keep-keep : (p : ℕ → Bool) (m : Dict ℕ) → keep p (keep p m) ≡ keep p m
unfolding keep
keep-keep p [] = refl
keep-keep p ((k, t) ∷ m) = ground (arith, keep-keep p m)

keep-delete : (p : ℕ → Bool) (m : Dict ℕ) (h : String) → keep p (delete m h) ≡ delete (keep p m) h
unfolding keep delete
keep-delete p [] h = refl
keep-delete p ((k, t) ∷ m) h = ground (arith, keep-delete p m h)

acquire-grants :
    (m : MemorySlotSemaphore) (key holder : String) (o : SlotOptions) (at : ℕ)
    → (acquire m key holder o at).1 ≡ grants (live m key at) holder o
unfolding acquire admit
acquire-grants m key holder o at = ground arith

-- Asking again at the same time drops nothing more but leases of no length.
live-admitted :
    (m : MemorySlotSemaphore) (key holder : String) (o : SlotOptions) (at : ℕ)
    → has (live m key at).holders holder ≡ false
    → grants (live m key at) holder o ≡ true
    → let s = live m key at in
      let s' = live (acquire m key holder o at).0 key at in
      (length s'.holders ≤ suc (length s.holders)) × (s'.queue ≡ delete s.queue holder)
unfolding acquire admit live drop
live-admitted m key holder o at new granted =
    let s = (drop (slots_of m key) at).0 in
    ground (
      arith,
      get-set_self m key (record {
        holders = set s.holders holder (at + o.lease_ms);
        queue = delete s.queue holder;
      }),
      length-keep-le (running at) (set s.holders holder (at + o.lease_ms)),
      length-set s.holders holder (at + o.lease_ms),
      keep-keep (running at) (slots_of m key).queue,
      keep-delete (running at) (keep (running at) (slots_of m key).queue) holder,
    )

-- No overtaking: if a newcomer is granted a slot while a live waiter stands before it in line,
-- then a slot is left for that waiter too, and it gets one when it asks at the same time.
pub acquire_no_overtaking :
    (m : MemorySlotSemaphore) (key holder waiter : String) (o : SlotOptions) (at : ℕ)
    → has (live m key at).holders holder ≡ false
    → place (live m key at).queue waiter < place (live m key at).queue holder
    → (acquire m key holder o at).1 ≡ true
    → (acquire (acquire m key holder o at).0 key waiter o at).1 ≡ true
unfolding grants
acquire_no_overtaking m key holder waiter o at new before granted =
    let m' = (acquire m key holder o at).0 in
    let granted' : grants (live m key at) holder o ≡ true =
      rw (← acquire-grants m key holder o at) granted in
    let (size, line) = live-admitted m key holder o at new granted' in
    rw (acquire-grants m' key waiter o at) (
      ground (
        arith,
        size,
        place-delete (live m key at).queue holder waiter before,
        ap (λ q. place q waiter) line,
        granted',
      ))

-- A slot that is free goes to the head of the line.
pub acquire_head :
    (m : MemorySlotSemaphore) (key waiter : String) (o : SlotOptions) (at : ℕ)
    → length (live m key at).holders < o.max
    → place (live m key at).queue waiter ≡ 0
    → ((acquire m key waiter o at).1 ≡ true)
unfolding acquire admit grants
acquire_head m key waiter o at free head = ground arith
