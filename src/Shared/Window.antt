-- ===== src/Shared/Window.antt =====
-- src/utils/shared-store.ts: `MemoryWindowCounter`, counting windows in process memory.
-- Times are Unix epoch milliseconds and an argument of each operation. A window's id is the
-- sequence number itself; the source keeps its decimal text.
pub mod View
pub mod Take
pub mod Ticket
pub mod Single
mod Tests
use bunmail.Prelude.{
  ℕ, suc, ◌+◌, ◌-◌, max, String, Bool, true, false, not, ◌&&◌, ◌||◌, List, [], ◌∷◌, Option, none,
  some, leb, ltb, ◌==◌, if◌then◌else◌,
}
use bunmail.Dict.{Dict, get, set, delete, keep, dropped}

pub record MemoryWindow : Type 0 where
  pub count : ℕ
  pub expires_at : ℕ
  pub marked : Bool
  pub id : ℕ

-- `seq` is the module's `memoryWindowSeq`.
pub record MemoryWindowCounter : Type 0 where
  pub entries : Dict MemoryWindow
  pub seq : ℕ

pub record WindowOptions : Type 0 where
  pub max : ℕ
  pub window_ms : ℕ
  pub weight : ℕ
  pub refused_weight : ℕ

pub data WindowDecision : Type 0 where
  allowed : ℕ → Dict ℕ → WindowDecision
  limited : ℕ → ℕ → Dict ℕ → WindowDecision

abbrev pub is_limited : WindowDecision → Bool
is_limited (allowed count windows) = false
is_limited (limited count retry windows) = true

abbrev pub windows_of : WindowDecision → Dict ℕ
windows_of (allowed count windows) = windows
windows_of (limited count retry windows) = windows

abbrev pub count_of : Option MemoryWindow → ℕ
count_of none = 0
count_of (some e) = e.count

-- The entry and the map that `live` leaves.
pub live : Dict MemoryWindow → String → ℕ → Option MemoryWindow × Dict MemoryWindow
live entries key at = elim (get entries key) [
  | none ↦ (none, entries)
  | some e ↦ if leb e.expires_at at then (none, delete entries key) else (some e, entries)
]

-- The variables of the first loop of `take`.
pub record Check : Type 0 where
  pub entries : Dict MemoryWindow
  pub over : Bool
  pub retry_after_ms : ℕ

-- How long until a refused key's window ends.
abbrev wait_of : Option MemoryWindow → ℕ → ℕ → ℕ
wait_of none window_ms at = window_ms
wait_of (some e) window_ms at = e.expires_at - at

pub check_key : WindowOptions → ℕ → Check → String → Check
check_key o at c key =
    let (entry, entries) = live c.entries key at in
    if ltb o.max (count_of entry + o.weight)
    then record {
      entries = entries;
      over = true;
      retry_after_ms = max c.retry_after_ms (wait_of entry o.window_ms at);
    }
    else record c { entries = entries }

pub check_all : WindowOptions → ℕ → Check → List String → Check
check_all o at c [] = c
check_all o at c (key ∷ keys) = check_all o at (check_key o at c key) keys

-- The variables of its second loop.
pub record Tally : Type 0 where
  pub counter : MemoryWindowCounter
  pub count : ℕ
  pub windows : Dict ℕ

-- `entry.count += add`, in a new window where there is none.
pub add_to :
    MemoryWindowCounter → Option MemoryWindow → String → ℕ → ℕ → MemoryWindow × MemoryWindowCounter
add_to c none key add expires_at =
    let e : MemoryWindow = record {
      count = add;
      expires_at = expires_at;
      marked = false;
      id = suc c.seq;
    } in
    (e, record { entries = set c.entries key e; seq = suc c.seq })
add_to c (some e) key add expires_at =
    let e' : MemoryWindow = record e { count = e.count + add } in
    (e', record c { entries = set c.entries key e' })

pub note : Tally → MemoryWindowCounter → String → Option MemoryWindow → Tally
note t c key none = record t { counter = c }
note t c key (some e) = record {
  counter = c;
  count = max t.count e.count;
  windows = set t.windows key e.id;
}

pub count_key : ℕ → ℕ → ℕ → Tally → String → Tally
count_key add window_ms at t key =
    let (entry, entries) = live t.counter.entries key at in
    let c : MemoryWindowCounter = record { entries = entries; seq = t.counter.seq } in
    let (e, c') = add_to c entry key add (at + window_ms) in
    if ltb 0 add then note t c' key (some e) else note t c key entry

pub count_all : ℕ → ℕ → ℕ → Tally → List String → Tally
count_all add window_ms at t [] = t
count_all add window_ms at t (key ∷ keys) =
    count_all add window_ms at (count_key add window_ms at t key) keys

-- What one `take` adds to each of its keys.
abbrev added : WindowOptions → Bool → ℕ
added o over = if over then o.refused_weight else o.weight

pub decision_of : Bool → ℕ → Tally → WindowDecision
decision_of over retry t =
    if over then limited t.count retry t.windows else allowed t.count t.windows

pub checked : MemoryWindowCounter → List String → WindowOptions → ℕ → Check
checked c keys o at =
    check_all o at (record { entries = c.entries; over = false; retry_after_ms = 0 }) keys

pub tallied : MemoryWindowCounter → Check → List String → WindowOptions → ℕ → Tally
tallied c k keys o at =
    count_all (added o k.over) o.window_ms at
      (record { counter = record { entries = k.entries; seq = c.seq }; count = 0; windows = [] })
      keys

pub take :
    MemoryWindowCounter → List String → WindowOptions → ℕ → MemoryWindowCounter × WindowDecision
unfolding checked tallied decision_of check_all check_key count_all count_key add_to note live
take c keys o at =
    let k = checked c keys o at in
    let t = tallied c k keys o at in (t.counter, decision_of k.over k.retry_after_ms t)

pub record WindowState : Type 0 where
  pub count : ℕ
  pub reset_in_ms : ℕ

pub peek : MemoryWindowCounter → String → ℕ → MemoryWindowCounter × Option WindowState
unfolding live
peek c key at =
    let (entry, entries) = live c.entries key at in
    (
      record c { entries = entries },
      elim entry [
        | none ↦ none
        | some e ↦ some (record { count = e.count; reset_in_ms = e.expires_at - at })
      ],
    )

pub refund : MemoryWindowCounter → String → ℕ → ℕ → MemoryWindowCounter
unfolding live
refund c key window_id at =
    let (entry, entries) = live c.entries key at in
    elim entry [
      | none ↦ record c { entries = entries }
      | some e ↦
          if e.id == window_id
          then record c { entries = set entries key (record e { count = e.count - 1 }) }
          else record c { entries = entries }
    ]

pub delete_all : MemoryWindowCounter → List String → MemoryWindowCounter
delete_all c [] = c
delete_all c (key ∷ keys) = delete_all (record c { entries = delete c.entries key }) keys

pub mark_once : MemoryWindowCounter → String → ℕ → MemoryWindowCounter × Bool
unfolding live
mark_once c key at =
    let (entry, entries) = live c.entries key at in
    elim entry [
      | none ↦ (record c { entries = entries }, false)
      | some e ↦
          if e.marked
          then (record c { entries = entries }, false)
          else (record c { entries = set entries key (record e { marked = true }) }, true)
    ]

pub prune : MemoryWindowCounter → ℕ → MemoryWindowCounter × ℕ
prune c at =
    let live_at = λ (e : MemoryWindow). not (leb e.expires_at at) in
    (record c { entries = keep live_at c.entries }, dropped live_at c.entries)
