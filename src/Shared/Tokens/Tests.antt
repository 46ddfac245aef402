-- ===== src/Shared/Tokens/Tests.antt =====
-- Runs of the token buckets.
use bunmail.Prelude.{◌+◌, ◌-◌, ◌*◌, ◌≤◌, refl, List, [], ◌∷◌, arith}
use bunmail.Shared.Tokens.{TokenRate, MemoryTokenBuckets, token, full}
use bunmail.Shared.Tokens.Rate.{Take, IsPaced, granted_from, granted_from-le-rate}

abbrev rate : TokenRate
rate = record { capacity = 2; per_minute = 60 }

abbrev buckets : MemoryTokenBuckets
buckets = ("gmail", record { tokens = 90000; at = 1000; rate = rate }) ∷ []

buckets-IsPaced : IsPaced rate buckets
unfolding bunmail.Dict.get
buckets-IsPaced = record { distinct = (refl, tt); paced = (refl, tt) }

abbrev takes : List Take
takes =
    record { bucket = "gmail"; count = 5; at = 1000 }
    ∷ record { bucket = "other"; count = 1; at = 1500 }
    ∷ record { bucket = "gmail"; count = 1; at = 1600 }
    ∷ []

granted_from-le-rate_example :
    granted_from buckets rate "gmail" takes * token ≤ full rate + (2000 - 1000) * 60
granted_from-le-rate_example =
    granted_from-le-rate buckets rate "gmail" takes 1000 2000 buckets-IsPaced
      (omega arith, (omega arith, (omega arith, omega arith)))
