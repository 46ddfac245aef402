-- ===== src/Middleware/RateLimit/Tests.antt =====
-- Runs of the limiter of API keys.
use bunmail.Prelude.{◌*◌, ◌≤◌, List, [], ◌∷◌, arith}
use bunmail.Middleware.RateLimit.{RateLimitOptions, RateLimitMap}
use bunmail.Middleware.RateLimit.Budget.{Request, sends, sends-le-twice_max}

abbrev five : RateLimitOptions
five = record { max = 5; window_ms = 1000 }

abbrev started : RateLimitMap
started = ("key", record { count = 4; window_start = 100 }) ∷ []

abbrev requests : List Request
requests =
    record { key = "key"; now = 600; weight = 1 }
    ∷ record { key = "key"; now = 700; weight = 3 }
    ∷ record { key = "other"; now = 800; weight = 5 }
    ∷ record { key = "key"; now = 1200; weight = 5 }
    ∷ []

sends-le-twice_max_example : sends started five "key" requests ≤ 2 * 5
sends-le-twice_max_example = sends-le-twice_max started five "key" 600 requests (
  omega arith,
  omega arith,
  (omega arith, omega arith, (omega arith, omega arith, (omega arith, omega arith, tt))),
)
