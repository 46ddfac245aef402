-- ===== src/Shared/Window/Tests.antt =====
-- Runs of the window counter.
use bunmail.Prelude.{◌+◌, ◌≡◌, refl, String, false, List, [], ◌∷◌, any, arith}
use bunmail.Dict.{get}
use bunmail.Shared.Window.{
  MemoryWindow, MemoryWindowCounter, WindowOptions, is_limited, checked, tallied, decision_of, take,
}
use bunmail.Shared.Window.View.{count_at}
use bunmail.Shared.Window.Take.{exceeds, is_limited-take, count_at-take}

abbrev ip_window : MemoryWindow
ip_window = record { count = 2; expires_at = 900; marked = false; id = 7 }

abbrev counter : MemoryWindowCounter
counter = record { entries = ("ip", ip_window) ∷ []; seq = 7 }

abbrev options : WindowOptions
options = record { max = 2; window_ms = 1000; weight = 1; refused_weight = 0 }

abbrev login_keys : List String
login_keys = "ip" ∷ "user" ∷ []

is_limited-take_example :
    is_limited (take counter login_keys options 500).1
    ≡ any (exceeds counter options 500) login_keys
is_limited-take_example = is_limited-take counter login_keys options 500

-- The key "ip" is full, so "user" is not counted either.
count_at-take_example :
    count_at (take counter login_keys options 500).0 "user" 500 ≡ count_at counter "user" 500 + 0
unfolding take checked tallied decision_of get
count_at-take_example =
    count_at-take counter login_keys options 500 "user" (omega arith) (refl, (refl, tt))
