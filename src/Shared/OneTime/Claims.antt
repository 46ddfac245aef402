-- ===== src/Shared/OneTime/Claims.antt =====
-- `claim`: a key is claimed by one caller for as long as it lives.
use bunmail.Prelude.{
  ℕ, suc, ◌+◌, ◌≤◌, ◌<◌, ◌≡◌, refl, String, Bool, true, false, ◌&&◌, List, [], ◌∷◌, Option, none,
  some, leb, if◌then◌else◌, arith, str_eq, eq_iff, length, Bool-cases, inl, inr, All,
}
use bunmail.Dict.{
  Dict, get, get-set, get-keep, Distinct, set-Distinct, keep-Distinct, delete-Distinct,
}
use bunmail.Shared.OneTime.{
  MemoryOneTime, MemoryOneTimeStore, OneTimeEntry, no_entry, Claim, claimed, refused, drop_oldest,
  unexpired, sweep, store, claim, held,
}
use bunmail.Shared.OneTime.Laws.{length-sweep, get-store}

-- Some entry is there, and it lives until `end` at least.
abbrev Lives : ℕ → Option MemoryOneTime → Type 0
Lives end none = ⊥
Lives end (some e) = end ≤ e.expires_at

sweep-Lives :
    (m : Dict MemoryOneTime) (key : String) (at end : ℕ)
    → Distinct m
    → at < end
    → Lives end (get m key)
    → Lives end (get (sweep m at) key)
unfolding sweep unexpired
sweep-Lives m key at end d h l = ground (arith, get-keep (unexpired at) m key d)

sweep-Distinct : (m : Dict MemoryOneTime) (at : ℕ) → Distinct m → Distinct (sweep m at)
unfolding sweep
sweep-Distinct m at d = keep-Distinct (unexpired at) m d

-- While there is room, `store` evicts nothing that lives.
store-Lives :
    (s : MemoryOneTimeStore) (j key : String) (e : OneTimeEntry) (ttl_ms at end : ℕ)
    → Distinct s.entries
    → length s.entries < s.max_entries
    → at < end
    → str_eq j key ≡ false
    → Lives end (get s.entries key)
    → Lives end (get (store s j e ttl_ms at).entries key)
unfolding store
store-Lives s j key e ttl_ms at end d room h other l = ground (
  arith,
  length-sweep s.entries at,
  sweep-Lives s.entries key at end d h l,
  get-set (sweep s.entries at) j
      (record { guard = e.guard; value = e.value; expires_at = at + ttl_ms }) key,
)

held_of_Lives :
    (s : MemoryOneTimeStore) (key : String) (at end : ℕ)
    → at < end
    → Lives end (get s.entries key)
    → held s key at ≡ true
unfolding held
held_of_Lives s key at end h l = ground arith

claim_of_Lives :
    (s : MemoryOneTimeStore) (key : String) (ttl_ms at end : ℕ)
    → at < end
    → Lives end (get s.entries key)
    → claim s key ttl_ms at ≡ (s, refused)
unfolding claim
claim_of_Lives s key ttl_ms at end h l = rw (held_of_Lives s key at end h l)

-- A claim, of whichever key and with whatever outcome, evicts no live entry.
claim-Lives :
    (s : MemoryOneTimeStore) (j key : String) (ttl_ms at end : ℕ)
    → Distinct s.entries
    → at < end
    → Lives end (get s.entries key)
    → Lives end (get (claim s j ttl_ms at).0.entries key)
unfolding claim
claim-Lives s j key ttl_ms at end d h l =
    let s' : MemoryOneTimeStore = record s { entries = sweep s.entries at } in
    ground (
      arith,
      eq_iff j key,
      held_of_Lives s key at end h l,
      sweep-Lives s.entries key at end d h l,
      store-Lives s j key no_entry ttl_ms at end d,
      store-Lives s' j key no_entry ttl_ms at end (sweep-Distinct s.entries at d),
    )

drop_oldest-Distinct : (m : Dict MemoryOneTime) → Distinct m → Distinct (drop_oldest m)
unfolding drop_oldest
drop_oldest-Distinct [] d = d
drop_oldest-Distinct ((k, e) ∷ m) d = delete-Distinct ((k, e) ∷ m) k d

store-Distinct :
    (s : MemoryOneTimeStore) (key : String) (e : OneTimeEntry) (ttl_ms at : ℕ)
    → Distinct s.entries
    → Distinct (store s key e ttl_ms at).entries
unfolding store
store-Distinct s key e ttl_ms at d =
    let swept = sweep s.entries at in
    let d' = sweep-Distinct s.entries at d in
    set-Distinct _ key _ (elim (Bool-cases (leb s.max_entries (length swept))) [
      | inl full ↦ rw full (drop_oldest-Distinct swept d')
      | inr room ↦ rw room d'
    ])

claim-Distinct :
    (s : MemoryOneTimeStore) (key : String) (ttl_ms at : ℕ)
    → Distinct s.entries
    → Distinct (claim s key ttl_ms at).0.entries
unfolding claim
claim-Distinct s key ttl_ms at d =
    let s' : MemoryOneTimeStore = record s { entries = sweep s.entries at } in
    let d' = sweep-Distinct s.entries at d in
    elim (Bool-cases (held s key at)) [
      | inl there ↦ rw there d
      | inr free ↦ rw free (elim (Bool-cases (leb s.max_entries (length s.entries))) [
        | inl full ↦ rw full (elim (Bool-cases (leb s.max_entries (length s'.entries))) [
          | inl still ↦ rw still d'
          | inr some_room ↦ rw some_room (store-Distinct s' key no_entry ttl_ms at d')
        ])
        | inr room ↦ rw room (store-Distinct s key no_entry ttl_ms at d)
      ])
    ]

claim-claimed :
    (s : MemoryOneTimeStore) (key : String) (ttl_ms at : ℕ)
    → (claim s key ttl_ms at).1 ≡ claimed
    → Lives (at + ttl_ms) (get (claim s key ttl_ms at).0.entries key)
unfolding claim
claim-claimed s key ttl_ms at h =
    let s' : MemoryOneTimeStore = record s { entries = sweep s.entries at } in
    ground (arith, get-store s key no_entry ttl_ms at, get-store s' key no_entry ttl_ms at)

-- A claim of a key, for a time to live, at a time.
pub record Attempt : Type 0 where
  pub key : String
  pub ttl_ms : ℕ
  pub at : ℕ

abbrev is_claimed : Claim → Bool
is_claimed claimed = true
is_claimed _ = false

-- How many of the attempts win `key`.
pub wins : MemoryOneTimeStore → String → List Attempt → ℕ
wins s key [] = 0
wins s key (a ∷ more) =
    let (s', outcome) = claim s a.key a.ttl_ms a.at in
    let rest = wins s' key more in if is_claimed outcome && str_eq a.key key then suc rest else rest

wins_of_Lives :
    (more : List Attempt) (s : MemoryOneTimeStore) (key : String) (end : ℕ)
    → Distinct s.entries
    → Lives end (get s.entries key)
    → All (λ a. a.at < end) more
    → wins s key more ≡ 0
unfolding wins
wins_of_Lives [] s key end d l early = refl
wins_of_Lives (a ∷ more) s key end d l (early, later) = ground (
  arith,
  eq_iff a.key key,
  claim_of_Lives s key a.ttl_ms a.at end early l,
  wins_of_Lives more (claim s a.key a.ttl_ms a.at).0 key end
      (claim-Distinct s a.key a.ttl_ms a.at d) (claim-Lives s a.key key a.ttl_ms a.at end d early l)
      later,
)

-- Single use: once a claim of a key succeeds, in a store that names no key twice, no attempt made
-- before it expires wins the key again, however many other keys are claimed in between and however
-- full the store is.
pub claim_once :
    (s : MemoryOneTimeStore) (key : String) (ttl_ms at : ℕ) (more : List Attempt)
    → Distinct s.entries
    → (claim s key ttl_ms at).1 ≡ claimed
    → All (λ a. a.at < at + ttl_ms) more
    → wins (claim s key ttl_ms at).0 key more ≡ 0
claim_once s key ttl_ms at more d h early =
    wins_of_Lives more (claim s key ttl_ms at).0 key (at + ttl_ms)
      (claim-Distinct s key ttl_ms at d) (claim-claimed s key ttl_ms at h) early
