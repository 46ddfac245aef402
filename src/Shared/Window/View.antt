-- ===== src/Shared/Window/View.antt =====
-- The windows that are live at a time, and the operations that leave them as they were.
use bunmail.Prelude.{
  ℕ, ◌≤◌, ◌≡◌, String, not, Option, none, some, leb, if◌then◌else◌, arith, eq_iff,
}
use bunmail.Dict.{Dict, get, get-delete, get-keep, Distinct}
use bunmail.Shared.Window.{MemoryWindow, MemoryWindowCounter, count_of, live, prune}

-- The window that counts at time `at`: one whose end lies after it.
abbrev pub alive : ℕ → Option MemoryWindow → Option MemoryWindow
alive at none = none
alive at (some e) = if leb e.expires_at at then none else some e

abbrev pub current : Dict MemoryWindow → String → ℕ → Option MemoryWindow
current entries key at = alive at (get entries key)

-- What the limiter holds against `key` at time `at`.
abbrev pub count_at : MemoryWindowCounter → String → ℕ → ℕ
count_at c key at = count_of (current c.entries key at)

pub live-entry : (m : Dict MemoryWindow) (k : String) (at : ℕ) → (live m k at).0 ≡ current m k at
unfolding live
live-entry m k at = ground arith

-- Dropping a lapsed window is unseen, now and later.
pub current-live :
    (m : Dict MemoryWindow) (k j : String) (at later : ℕ)
    → at ≤ later
    → current (live m k at).1 j later ≡ current m j later
unfolding live
current-live m k j at later h = ground (arith, eq_iff k j, get-delete m k j)

-- The sweep is unseen: in a map that names no key twice, what it removes counts for no key, at the
-- sweep's time or any later one.
pub current-prune :
    (c : MemoryWindowCounter) (j : String) (at later : ℕ)
    → Distinct c.entries
    → at ≤ later
    → current (prune c at).0.entries j later ≡ current c.entries j later
unfolding prune
current-prune c j at later d h =
    ground (arith, get-keep (λ e. not (leb e.expires_at at)) c.entries j d)
