-- ===== src/Shared/OneTime.antt =====
-- src/utils/shared-store.ts: `MemoryOneTimeStore`, values that are taken at most once.
-- Times are Unix epoch milliseconds and an argument of each operation.
pub mod Laws
pub mod Claims
mod Tests
use bunmail.Prelude.{
  ℕ, ◌+◌, String, Bool, true, false, not, List, [], ◌∷◌, Option, none, some, leb, if◌then◌else◌,
  str_eq, length,
}
use bunmail.Dict.{Dict, get, set, delete, keep}

pub record OneTimeEntry : Type 0 where
  pub guard : String
  pub value : String

pub record MemoryOneTime : Type 0 where
  pub guard : String
  pub value : String
  pub expires_at : ℕ

pub record MemoryOneTimeStore : Type 0 where
  pub entries : Dict MemoryOneTime
  pub max_entries : ℕ

pub data OneTimeTake : Type 0 where
  missing : OneTimeTake
  mismatch : String → OneTimeTake
  taken : String → OneTimeTake

-- `claim` resolves to true or false, or rejects with `ONE_TIME_FULL`.
pub data Claim : Type 0 where
  claimed refused one_time_full : Claim

-- `map.delete(map.keys().next().value)`
pub drop_oldest : Dict MemoryOneTime → Dict MemoryOneTime
drop_oldest [] = []
drop_oldest ((k, e) ∷ m) = delete ((k, e) ∷ m) k

pub unexpired : ℕ → MemoryOneTime → Bool
unexpired at e = not (leb e.expires_at at)

pub sweep : Dict MemoryOneTime → ℕ → Dict MemoryOneTime
unfolding unexpired
sweep entries at = keep (unexpired at) entries

pub store : MemoryOneTimeStore → String → OneTimeEntry → ℕ → ℕ → MemoryOneTimeStore
unfolding sweep drop_oldest
store s key entry ttl_ms at =
    let swept = sweep s.entries at in
    let room = if leb s.max_entries (length swept) then drop_oldest swept else swept in
    record s {
      entries =
          set room key
            (record { guard = entry.guard; value = entry.value; expires_at = at + ttl_ms });
    }

pub put : MemoryOneTimeStore → String → OneTimeEntry → ℕ → ℕ → MemoryOneTimeStore
unfolding store
put s key entry ttl_ms at = store s key entry ttl_ms at

-- Whether `key` has an entry whose end lies after `at`.
pub held : MemoryOneTimeStore → String → ℕ → Bool
unfolding unexpired
held s key at = elim (get s.entries key) [ none ↦ false | some e ↦ unexpired at e ]

abbrev pub no_entry : OneTimeEntry
no_entry = record { guard = ""; value = "" }

pub claim : MemoryOneTimeStore → String → ℕ → ℕ → MemoryOneTimeStore × Claim
unfolding held store sweep
claim s key ttl_ms at =
    if held s key at
    then (s, refused)
    else if leb s.max_entries (length s.entries)
    then (let s' : MemoryOneTimeStore = record s { entries = sweep s.entries at } in
        if leb s.max_entries (length s'.entries)
        then (s', one_time_full)
        else (store s' key no_entry ttl_ms at, claimed))
    else (store s key no_entry ttl_ms at, claimed)

pub take : MemoryOneTimeStore → String → String → ℕ → MemoryOneTimeStore × OneTimeTake
take s key guard at = elim (get s.entries key) [
  | none ↦ (s, missing)
  | some e ↦
      if leb e.expires_at at
      then (record s { entries = delete s.entries key }, missing)
      else if not (str_eq e.guard guard)
      then (s, mismatch e.guard)
      else (record s { entries = delete s.entries key }, taken e.value)
]
