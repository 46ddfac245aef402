-- ===== src/Shared/Window/Single.antt =====
-- A request of weight one for one key, as the login and submission limits make it.
use bunmail.Prelude.{
  ℕ, suc, ◌+◌, ◌-◌, ◌<◌, ◌≡◌, String, true, false, [], ◌∷◌, none, some, arith, str_eq, eq_refl,
  Option-cases, inl, inr,
}
use bunmail.Dict.{get, set, delete, get-set, get-set_self, get-delete}
use bunmail.Shared.Window.{
  MemoryWindow, MemoryWindowCounter, WindowOptions, is_limited, windows_of, count_of, live,
  check_key, check_all, add_to, note, count_key, count_all, decision_of, checked, tallied, take,
  refund,
}
use bunmail.Shared.Window.View.{current}

abbrev pub one_of : ℕ → ℕ → WindowOptions
one_of max window_ms = record { max = max; window_ms = window_ms; weight = 1; refused_weight = 0 }

-- The window that a request is counted in.
abbrev pub counted_in : MemoryWindowCounter → String → ℕ → ℕ → MemoryWindow
counted_in c key window_ms at = elim (current c.entries key at) [
  | none ↦ record { count = 1; expires_at = at + window_ms; marked = false; id = suc c.seq }
  | some e ↦ record e { count = e.count + 1 }
]

pub get-take_one :
    (c : MemoryWindowCounter) (key : String) (max window_ms at : ℕ)
    → is_limited (take c (key ∷ []) (one_of max window_ms) at).1 ≡ false
    → let (c', decision) = take c (key ∷ []) (one_of max window_ms) at in
      (get c'.entries key ≡ some (counted_in c key window_ms at))
      × (get (windows_of decision) key ≡ some (counted_in c key window_ms at).id)
      × (count_of (current c.entries key at) < max)
unfolding take decision_of tallied count_all count_key note add_to live checked check_all check_key
    get set
get-take_one c key max window_ms at free = ground (
  arith,
  eq_refl key,
  get-set_self c.entries key (counted_in c key window_ms at),
  get-set_self (delete c.entries key) key (counted_in c key window_ms at),
  get-delete c.entries key key,
)

pub current-take_one :
    (c : MemoryWindowCounter) (key : String) (max window_ms at : ℕ)
    → is_limited (take c (key ∷ []) (one_of max window_ms) at).1 ≡ true
    → get (take c (key ∷ []) (one_of max window_ms) at).0.entries key ≡ current c.entries key at
unfolding take decision_of tallied count_all count_key note add_to live checked check_all check_key
    get set
current-take_one c key max window_ms at full =
    ground
      (arith, eq_refl key, get-delete c.entries key key, get-delete (delete c.entries key) key key)

-- A refund by the id of the window that is there.
pub get-refund :
    (c : MemoryWindowCounter) (key : String) (e : MemoryWindow) (at : ℕ)
    → get c.entries key ≡ some e
    → at < e.expires_at
    → get (refund c key e.id at).entries key ≡ some (record e { count = e.count - 1 })
unfolding refund live
get-refund c key e at here lives =
    ground (arith, get-set_self c.entries key (record e { count = e.count - 1 }))

-- A request for another key leaves the window as it is.
pub get-take_other :
    (c : MemoryWindowCounter) (j key : String) (max window_ms at : ℕ)
    → str_eq j key ≡ false
    → get (take c (j ∷ []) (one_of max window_ms) at).0.entries key ≡ get c.entries key
unfolding take decision_of tallied count_all count_key note add_to live checked check_all check_key
get-take_other c j key max window_ms at other =
    let new : MemoryWindow = record {
      count = 1;
      expires_at = at + window_ms;
      marked = false;
      id = suc c.seq;
    } in
    elim (Option-cases (get c.entries j)) [
      | inl e ↦ ground (arith, get-set c.entries j new key)
      | inr (e, here) ↦ ground (
        arith,
        get-set c.entries j (record e { count = e.count + 1 }) key,
        get-set (delete c.entries j) j new key,
        get-delete c.entries j key,
        get-delete c.entries j j,
        eq_refl j,
      )
    ]

pub get-refund_other :
    (c : MemoryWindowCounter) (j key : String) (id at : ℕ)
    → str_eq j key ≡ false
    → get (refund c j id at).entries key ≡ get c.entries key
unfolding refund live
get-refund_other c j key id at other = elim (Option-cases (get c.entries j)) [
  | inl e ↦ ground arith
  | inr (e, here) ↦ ground (
    arith,
    get-set c.entries j (record e { count = e.count - 1 }) key,
    get-delete c.entries j key,
  )
]
