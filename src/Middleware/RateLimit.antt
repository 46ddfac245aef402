-- ===== src/Middleware/RateLimit.antt =====
-- src/middleware/rate-limit-core.ts: the fixed-window limiter of each API key, in process memory.
-- Times are milliseconds and an argument; `now - start >= length` is written `start + length ≤ now`.
pub mod Budget
pub mod Retry
mod Tests
use bunmail.Prelude.{
  ℕ, ◌+◌, ◌-◌, ◌/◌, String, Bool, not, List, [], ◌∷◌, Option, none, some, leb, ltb, if◌then◌else◌,
}
use bunmail.Dict.{Dict, get, set, keep, dropped}

pub record RateLimitOptions : Type 0 where
  pub max : ℕ
  pub window_ms : ℕ

abbrev pub default_options : RateLimitOptions
default_options = record { max = 100; window_ms = 60000 }

pub record RateLimitEntry : Type 0 where
  pub count : ℕ
  pub window_start : ℕ

pub data RateLimitDecision : Type 0 where
  allowed : RateLimitDecision
  limited : ℕ → ℕ → RateLimitDecision

abbrev pub RateLimitMap : Type 0
RateLimitMap = Dict RateLimitEntry

unfoldable pub is_over : RateLimitEntry → ℕ → ℕ → Bool
is_over e now window_ms = leb (e.window_start + window_ms) now

-- The entry that the request is counted in: a new window where there is none or it is over.
unfoldable pub entry_for : Option RateLimitEntry → ℕ → ℕ → RateLimitEntry
unfolding is_over
entry_for none now window_ms = record { count = 0; window_start = now }
entry_for (some e) now window_ms =
    if is_over e now window_ms then record { count = 0; window_start = now } else e

-- `Math.ceil(ms / 1000)`.
unfoldable pub seconds_up : ℕ → ℕ
seconds_up ms = (ms + 999) / 1000

unfoldable pub counted :
    RateLimitEntry → ℕ → RateLimitOptions → ℕ → RateLimitEntry × RateLimitDecision
unfolding seconds_up
counted e now o weight =
    if ltb o.max (e.count + weight)
    then (
      record e { count = e.count + 1 },
      limited (e.count + 1) (seconds_up (e.window_start + o.window_ms - now)),
    )
    else (record e { count = e.count + weight }, allowed)

unfoldable pub check_rate_limit :
    RateLimitMap → String → ℕ → RateLimitOptions → ℕ → RateLimitMap × RateLimitDecision
unfolding entry_for counted
check_rate_limit m key now o weight =
    let (e, decision) = counted (entry_for (get m key) now o.window_ms) now o weight in
    (set m key e, decision)

pub prune_expired_entries : RateLimitMap → ℕ → ℕ → RateLimitMap × ℕ
unfolding is_over
prune_expired_entries m now window_ms =
    let lives = λ (e : RateLimitEntry). not (is_over e now window_ms) in
    (keep lives m, dropped lives m)
