-- ===== src/Shared/Window/Ticket.antt =====
-- Refunds, marks and deletions: which window they touch.
use bunmail.Prelude.{
  ℕ, suc, sym, ◌+◌, ◌-◌, ◌≤◌, ◌<◌, ◌≡◌, refl, String, true, false, List, [], ◌∷◌, Option, none,
  some, if◌then◌else◌, arith, str_eq, eq_iff, eq_refl, ◌∙◌, Option-cases, inl, inr,
}
use bunmail.Dict.{get, delete, get-set, get-delete, HasSome}
use bunmail.Shared.Window.{
  MemoryWindow, MemoryWindowCounter, WindowOptions, Tally, added, live, add_to, note, count_key,
  count_all, checked, tallied, take, refund, mark_once, delete_all,
}
use bunmail.Shared.Window.View.{current, count_at, live-entry, current-live}
use bunmail.Shared.Window.Take.{member, checked-current}
use native.Mathlib.Nat.{le_refl}

abbrev IsMarked : Option MemoryWindow → Type 0
IsMarked = HasSome (λ e. e.marked ≡ true)

mark_once-IsMarked :
    (c : MemoryWindowCounter) (key : String) (at : ℕ)
    → (mark_once c key at).1 ≡ true
    → IsMarked (get (mark_once c key at).0.entries key)
unfolding mark_once
mark_once-IsMarked c key at h = elim (Option-cases (live c.entries key at).0) [
  | inl e ↦ ground arith
  | inr (e, q) ↦
      ground
        (arith, get-set (live c.entries key at).1 key (record e { marked = true }) key, eq_refl key)
]

mark_once_of_IsMarked :
    (c : MemoryWindowCounter) (key : String) (at : ℕ)
    → IsMarked (get c.entries key)
    → (mark_once c key at).1 ≡ false
unfolding mark_once live
mark_once_of_IsMarked c key at h = ground arith

-- A mark is given once: the next call for the key is refused, at whatever time it comes, if
-- nothing opens a new window in between.
pub mark_once_twice :
    (c : MemoryWindowCounter) (key : String) (at later : ℕ)
    → (mark_once c key at).1 ≡ true
    → (mark_once (mark_once c key at).0 key later).1 ≡ false
mark_once_twice c key at later h =
    mark_once_of_IsMarked (mark_once c key at).0 key later (mark_once-IsMarked c key at h)

-- A successful login clears its keys' counts and no others.
pub count_at-delete_all :
    (keys : List String) (c : MemoryWindowCounter) (j : String) (at : ℕ)
    → count_at (delete_all c keys) j at ≡ (if member keys j then 0 else count_at c j at)
unfolding delete_all
count_at-delete_all [] c j at = refl
count_at-delete_all (key ∷ keys) c j at = ground (
  arith,
  count_at-delete_all keys (record c { entries = delete c.entries key }) j at,
  get-delete c.entries key j,
  eq_iff key j,
)

-- Whether the window found, if any, was opened after sequence number `n`.
abbrev IsNewer : ℕ → Option MemoryWindow → Type 0
IsNewer n = HasSome (λ e. n < e.id)

module _ (n at : ℕ) where
  add_to-IsNewer :
      (c : MemoryWindowCounter) (entry : Option MemoryWindow) (key j : String) (add end : ℕ)
      → n ≤ c.seq
      → current c.entries key at ≡ entry
      → IsNewer n (current c.entries j at)
      → (n ≤ (add_to c entry key add end).1.seq)
        × IsNewer n (current (add_to c entry key add end).1.entries j at)
  unfolding add_to
  add_to-IsNewer c none key j add end old q h = ground (
    arith,
    get-set c.entries key (record { count = add; expires_at = end; marked = false; id = suc c.seq })
        j,
    eq_iff key j,
  )
  add_to-IsNewer c (some e) key j add end old q h =
      ground (arith, get-set c.entries key (record e { count = e.count + add }) j, eq_iff key j)

  count_key-IsNewer :
      (add window_ms : ℕ) (t : Tally) (key j : String)
      → n ≤ t.counter.seq
      → IsNewer n (current t.counter.entries j at)
      → (n ≤ (count_key add window_ms at t key).counter.seq)
        × IsNewer n (current (count_key add window_ms at t key).counter.entries j at)
  unfolding count_key note
  count_key-IsNewer add window_ms t key j old h =
      let entry = live t.counter.entries key at in
      let c : MemoryWindowCounter = record { entries = entry.1; seq = t.counter.seq } in
      ground (
        arith,
        add_to-IsNewer c entry.0 key j add (at + window_ms) old (
            current-live t.counter.entries key key at at (le_refl at)
            ∙ sym (live-entry t.counter.entries key at)),
        current-live t.counter.entries key j at at (le_refl at),
      )

  count_all-IsNewer :
      (add window_ms : ℕ) (keys : List String) (t : Tally) (j : String)
      → n ≤ t.counter.seq
      → IsNewer n (current t.counter.entries j at)
      → IsNewer n (current (count_all add window_ms at t keys).counter.entries j at)
  unfolding count_all
  count_all-IsNewer add window_ms [] t j old h = h
  count_all-IsNewer add window_ms (key ∷ keys) t j old h =
      let next = count_key-IsNewer add window_ms t key j old h in
      count_all-IsNewer add window_ms keys (count_key add window_ms at t key) j next.0 next.1

refund_of_IsNewer :
    (n : ℕ) (c : MemoryWindowCounter) (key j : String) (window_id at later : ℕ)
    → at ≤ later
    → window_id ≤ n
    → IsNewer n (current c.entries key at)
    → count_at (refund c key window_id later) j later ≡ count_at c j later
unfolding refund
refund_of_IsNewer n c key j window_id at later after ticket h = ground (
  arith,
  live-entry c.entries key later,
  current-live c.entries key j later later (le_refl later),
)

take-IsNewer :
    (c : MemoryWindowCounter) (keys : List String) (o : WindowOptions) (key : String) (at : ℕ)
    → current c.entries key at ≡ none
    → IsNewer c.seq (current (take c keys o at).0.entries key at)
unfolding take tallied
take-IsNewer c keys o key at gone =
    let k = checked c keys o at in
    count_all-IsNewer c.seq at (added o k.over) o.window_ms keys
      (record { counter = record { entries = k.entries; seq = c.seq }; count = 0; windows = [] })
      key (le_refl c.seq) (rw (checked-current c keys o at key, gone) tt)

-- A refund with a stale ticket changes no count: where a key has no live window when a request is
-- taken, a ticket from before that request takes nothing back from the window it opens, then or
-- later.
pub refund_stale :
    (c : MemoryWindowCounter) (keys : List String) (o : WindowOptions) (key j : String)
    (window_id at later : ℕ)
    → current c.entries key at ≡ none
    → window_id ≤ c.seq
    → at ≤ later
    → count_at (refund (take c keys o at).0 key window_id later) j later
      ≡ count_at (take c keys o at).0 j later
refund_stale c keys o key j window_id at later gone ticket after =
    refund_of_IsNewer c.seq (take c keys o at).0 key j window_id at later after ticket
      (take-IsNewer c keys o key at gone)

-- A refund with the id of the live window takes one from its count, and from no other.
pub count_at-refund :
    (c : MemoryWindowCounter) (key j : String) (at : ℕ) (e : MemoryWindow)
    → current c.entries key at ≡ some e
    → count_at (refund c key e.id at) j at
      ≡ (if str_eq key j then count_at c j at - 1 else count_at c j at)
unfolding refund
count_at-refund c key j at e h = ground (
  arith,
  live-entry c.entries key at,
  current-live c.entries key j at at (le_refl at),
  get-set (live c.entries key at).1 key (record e { count = e.count - 1 }) j,
  eq_iff key j,
)
