-- ===== src/Shared/OneTime/Laws.antt =====
-- `put` and `take`: an entry is read at most once, and only under its guard.
use bunmail.Prelude.{
  ℕ, ◌+◌, ◌≤◌, ◌<◌, ◌≡◌, String, List, [], ◌∷◌, some, arith, eq_refl, length, Option-cases, inl,
  inr,
}
use bunmail.Dict.{
  Dict, get, get-set_self, get-delete_self, length-set, length-delete-le, length-delete-lt,
  length-keep-le,
}
use bunmail.Shared.OneTime.{
  MemoryOneTime, MemoryOneTimeStore, OneTimeEntry, missing, mismatch, taken, drop_oldest, unexpired,
  sweep, store, put, claim, take, no_entry,
}

pub get-store :
    (s : MemoryOneTimeStore) (key : String) (e : OneTimeEntry) (ttl_ms at : ℕ)
    → get (store s key e ttl_ms at).entries key
      ≡ some (record { guard = e.guard; value = e.value; expires_at = at + ttl_ms })
unfolding store
get-store s key e ttl_ms at = get-set_self _ key _

-- What is put is taken back under the same guard by a take before it expires, when no other call
-- comes in between.
pub take-put :
    (s : MemoryOneTimeStore) (key : String) (e : OneTimeEntry) (ttl_ms at later : ℕ)
    → later < at + ttl_ms
    → (take (put s key e ttl_ms at) key e.guard later).1 ≡ taken e.value
unfolding take put
take-put s key e ttl_ms at later h = ground (arith, get-store s key e ttl_ms at, eq_refl e.guard)

-- Two takes never both get the entry: after one got it, the key is missing for any guard.
pub take_twice :
    (s : MemoryOneTimeStore) (key guard v guard' : String) (at later : ℕ)
    → (take s key guard at).1 ≡ taken v
    → (take (take s key guard at).0 key guard' later).1 ≡ missing
unfolding take
take_twice s key guard v guard' at later h = ground (arith, get-delete_self s.entries key)

-- A take with the wrong guard leaves the whole store as it is, and the right guard still gets the
-- value.
pub take_wrong_guard :
    (s : MemoryOneTimeStore) (key guard owner : String) (at : ℕ)
    → (take s key guard at).1 ≡ mismatch owner
    → ((take s key guard at).0 ≡ s) × ((v : String) × ((take s key owner at).1 ≡ taken v))
unfolding take
take_wrong_guard s key guard owner at h = elim (Option-cases (get s.entries key)) [
  | inl e ↦ ground arith
  | inr (e, q) ↦ (ground arith, (e.value, ground (arith, eq_refl e.guard)))
]

pub length-drop_oldest : (m : Dict MemoryOneTime) → 0 < length m → length (drop_oldest m) < length m
unfolding drop_oldest get
length-drop_oldest [] h = h
length-drop_oldest ((k, e) ∷ m) h = length-delete-lt ((k, e) ∷ m) k (ground (arith, eq_refl k))

pub length-sweep : (m : Dict MemoryOneTime) (at : ℕ) → length (sweep m at) ≤ length m
unfolding sweep
length-sweep m at = length-keep-le (unexpired at) m

-- Never more entries than the cap, if the cap leaves room for one.
abbrev pub IsBounded : MemoryOneTimeStore → Type 0
IsBounded s = (0 < s.max_entries) × (length s.entries ≤ s.max_entries)

pub store-IsBounded :
    (s : MemoryOneTimeStore) (key : String) (e : OneTimeEntry) (ttl_ms at : ℕ)
    → IsBounded s
    → IsBounded (store s key e ttl_ms at)
unfolding store
store-IsBounded s key e ttl_ms at h =
    let v : MemoryOneTime = record { guard = e.guard; value = e.value; expires_at = at + ttl_ms } in
    ground (
      arith,
      length-sweep s.entries at,
      length-drop_oldest (sweep s.entries at),
      length-set (sweep s.entries at) key v,
      length-set (drop_oldest (sweep s.entries at)) key v,
    )

put-IsBounded :
    (s : MemoryOneTimeStore) (key : String) (e : OneTimeEntry) (ttl_ms at : ℕ)
    → IsBounded s
    → IsBounded (put s key e ttl_ms at)
unfolding put
put-IsBounded = store-IsBounded

take-IsBounded :
    (s : MemoryOneTimeStore) (key guard : String) (at : ℕ)
    → IsBounded s
    → IsBounded (take s key guard at).0
unfolding take
take-IsBounded s key guard at h = ground (arith, length-delete-le s.entries key)

claim-IsBounded :
    (s : MemoryOneTimeStore) (key : String) (ttl_ms at : ℕ)
    → IsBounded s
    → IsBounded (claim s key ttl_ms at).0
unfolding claim
claim-IsBounded s key ttl_ms at h =
    let s' : MemoryOneTimeStore = record s { entries = sweep s.entries at } in
    ground (
      arith,
      length-sweep s.entries at,
      store-IsBounded s key no_entry ttl_ms at,
      store-IsBounded s' key no_entry ttl_ms at,
    )

pub data Call : Type 0 where
  puts : String → OneTimeEntry → ℕ → Call
  takes : String → String → Call
  claims : String → ℕ → Call

pub step : MemoryOneTimeStore → ℕ × Call → MemoryOneTimeStore
step s (at, puts key e ttl_ms) = put s key e ttl_ms at
step s (at, takes key guard) = (take s key guard at).0
step s (at, claims key ttl_ms) = (claim s key ttl_ms at).0

pub run : MemoryOneTimeStore → List (ℕ × Call) → MemoryOneTimeStore
unfolding step
run s [] = s
run s (c ∷ cs) = run (step s c) cs

-- Whatever the sequence of calls, a burst cannot grow the store past its cap.
pub run-IsBounded :
    (s : MemoryOneTimeStore) (cs : List (ℕ × Call)) → IsBounded s → IsBounded (run s cs)
unfolding run
run-IsBounded s [] h = h
run-IsBounded s ((at, puts key e ttl_ms) ∷ cs) h =
    run-IsBounded (put s key e ttl_ms at) cs (put-IsBounded s key e ttl_ms at h)
run-IsBounded s ((at, takes key guard) ∷ cs) h =
    run-IsBounded (take s key guard at).0 cs (take-IsBounded s key guard at h)
run-IsBounded s ((at, claims key ttl_ms) ∷ cs) h =
    run-IsBounded (claim s key ttl_ms at).0 cs (claim-IsBounded s key ttl_ms at h)
