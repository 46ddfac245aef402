-- ===== src/Shared/Window/Take.antt =====
-- `take`: who is refused, and what every key's count becomes.
use bunmail.Prelude.{
  ℕ, suc, sym, ◌+◌, ◌≤◌, ◌<◌, ◌≡◌, refl, String, Bool, true, false, ◌||◌, List, [], ◌∷◌, Option,
  none, some, ltb, if◌then◌else◌, arith, str_eq, eq_iff, any, ◌∙◌,
}
use bunmail.Dict.{get-set}
use bunmail.Shared.Window.{
  MemoryWindow, MemoryWindowCounter, WindowOptions, Check, Tally, count_of, is_limited, added, live,
  check_key, check_all, add_to, note, count_key, count_all, decision_of, checked, tallied, take,
}
use bunmail.Shared.Window.View.{current, count_at, live-entry, current-live}
use native.Mathlib.Nat.{le_refl}

-- Whether `key` stands among `keys`.
abbrev pub member : List String → String → Bool
member [] j = false
member (k ∷ keys) j = str_eq k j || member keys j

-- No key is named twice.
abbrev pub Unique : List String → Type 0
Unique [] = Unit
Unique (k ∷ keys) = (member keys k ≡ false) × Unique keys

-- Whether a request of `o.weight` at `key` would pass the maximum.
abbrev pub exceeds : MemoryWindowCounter → WindowOptions → ℕ → String → Bool
exceeds c o at key = ltb o.max (count_at c key at + o.weight)

module _ (o : WindowOptions) (at : ℕ) where
  check_key-current :
      (k : Check) (key j : String)
      → current (check_key o at k key).entries j at ≡ current k.entries j at
  unfolding check_key
  check_key-current k key j = ground (arith, current-live k.entries key j at at (le_refl at))

  check_key-over :
      (k : Check) (key : String)
      → (check_key o at k key).over
        ≡ (k.over || ltb o.max (count_of (current k.entries key at) + o.weight))
  unfolding check_key
  check_key-over k key = ground (arith, live-entry k.entries key at)

  check_all-current :
      (keys : List String) (k : Check) (j : String)
      → current (check_all o at k keys).entries j at ≡ current k.entries j at
  unfolding check_all
  check_all-current [] k j = refl
  check_all-current (key ∷ keys) k j =
      check_all-current keys (check_key o at k key) j ∙ check_key-current k key j

  -- The first loop refuses exactly when some key would pass the maximum.
  check_all-over :
      (keys : List String) (k : Check) (c : MemoryWindowCounter)
      → ((j : String) → current k.entries j at ≡ current c.entries j at)
      → (check_all o at k keys).over ≡ (k.over || any (exceeds c o at) keys)
  unfolding check_all
  check_all-over [] k c same = ground arith
  check_all-over (key ∷ keys) k c same = ground (
    arith,
    check_all-over keys (check_key o at k key) c (λ j. check_key-current k key j ∙ same j),
    check_key-over k key,
    same key,
  )

module _ (add window_ms at : ℕ) (opens : 0 < window_ms) where
  add_to-count :
      (c : MemoryWindowCounter) (entry : Option MemoryWindow) (key j : String)
      → current c.entries key at ≡ entry
      → count_of (current (add_to c entry key add (at + window_ms)).1.entries j at)
        ≡ count_of (current c.entries j at) + (if str_eq key j then add else 0)
  unfolding add_to
  add_to-count c none key j h = ground (
    arith,
    get-set c.entries key
        (record { count = add; expires_at = at + window_ms; marked = false; id = suc c.seq }) j,
    eq_iff key j,
  )
  add_to-count c (some e) key j h =
      ground (arith, get-set c.entries key (record e { count = e.count + add }) j, eq_iff key j)

  count_key-count :
      (t : Tally) (key j : String)
      → count_of (current (count_key add window_ms at t key).counter.entries j at)
        ≡ count_of (current t.counter.entries j at) + (if str_eq key j then add else 0)
  unfolding count_key note
  count_key-count t key j =
      let entry = live t.counter.entries key at in
      let c : MemoryWindowCounter = record { entries = entry.1; seq = t.counter.seq } in
      ground (
        arith,
        add_to-count c entry.0 key j (
            current-live t.counter.entries key key at at (le_refl at)
            ∙ sym (live-entry t.counter.entries key at)),
        current-live t.counter.entries key j at at (le_refl at),
      )

  count_all-count :
      (keys : List String) (t : Tally) (j : String)
      → Unique keys
      → count_of (current (count_all add window_ms at t keys).counter.entries j at)
        ≡ count_of (current t.counter.entries j at) + (if member keys j then add else 0)
  unfolding count_all
  count_all-count [] t j u = omega arith
  count_all-count (key ∷ keys) t j (once, u) = ground (
    arith,
    count_all-count keys (count_key add window_ms at t key) j u,
    count_key-count t key j,
    eq_iff key j,
  )

any-exceeds :
    (c : MemoryWindowCounter) (o : WindowOptions) (at : ℕ) (keys : List String) (j : String)
    → any (exceeds c o at) keys ≡ false
    → member keys j ≡ true
    → count_at c j at + o.weight ≤ o.max
any-exceeds c o at [] j h m = cc
any-exceeds c o at (key ∷ keys) j h m = ground (arith, eq_iff key j, any-exceeds c o at keys j)

module _ (c : MemoryWindowCounter) (keys : List String) (o : WindowOptions) (at : ℕ) where
  checked-over : (checked c keys o at).over ≡ any (exceeds c o at) keys
  unfolding checked
  checked-over =
      check_all-over o at keys (record { entries = c.entries; over = false; retry_after_ms = 0 }) c
        (λ j. refl)

  pub checked-current :
      (j : String) → current (checked c keys o at).entries j at ≡ current c.entries j at
  unfolding checked
  checked-current =
      check_all-current o at keys (record { entries = c.entries; over = false; retry_after_ms = 0 })

  -- A request is refused exactly when one of its keys would pass the maximum.
  pub is_limited-take : is_limited (take c keys o at).1 ≡ any (exceeds c o at) keys
  unfolding take decision_of
  is_limited-take = ground (arith, checked-over)

  -- All keys are counted or none: each key of a request that is let through grows by the weight,
  -- each key of a refused one by the refused weight, and no other count changes, for a request
  -- that names no key twice.
  pub count_at-take :
      (j : String)
      → 0 < o.window_ms
      → Unique keys
      → count_at (take c keys o at).0 j at
        ≡ count_at c j at + (if member keys j then added o (is_limited (take c keys o at).1) else 0)
  unfolding take decision_of tallied
  count_at-take j opens u =
      let k = checked c keys o at in
      ground (
        arith,
        checked-current j,
        count_all-count (added o k.over) o.window_ms at opens keys
            (record {
              counter = record { entries = k.entries; seq = c.seq };
              count = 0;
              windows = [];
            })
            j u,
      )

  -- After a request that is let through, no key of it stands above the maximum.
  pub take-le-max :
      (j : String)
      → 0 < o.window_ms
      → Unique keys
      → is_limited (take c keys o at).1 ≡ false
      → member keys j ≡ true
      → count_at (take c keys o at).0 j at ≤ o.max
  take-le-max j opens u free m =
      ground (arith, count_at-take j opens u, is_limited-take, any-exceeds c o at keys j)
