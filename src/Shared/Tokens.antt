-- ===== src/Shared/Tokens.antt =====
-- src/utils/shared-tokens.ts: `MemoryTokenBuckets`, token buckets in process memory.
-- The source counts fractions of a token in floating point. Here they are exact: a bucket's level
-- is in units of 1/60000 token, so that one millisecond refills `per_minute` units.
pub mod Level
pub mod Rate
mod Tests
use bunmail.Prelude.{
  ℕ, ◌+◌, ◌-◌, ◌*◌, ◌/◌, min, String, Bool, not, List, [], ◌∷◌, Option, none, some, leb, ◌==◌,
  if◌then◌else◌, length,
}
use bunmail.Dict.{Dict, get, set, keep}

pub record TokenRate : Type 0 where
  pub capacity : ℕ
  pub per_minute : ℕ

pub record TokenGrant : Type 0 where
  pub granted : ℕ
  pub wait_ms : ℕ

pub record MemoryBucket : Type 0 where
  pub tokens : ℕ
  pub at : ℕ
  pub rate : TokenRate

abbrev pub max_idle_buckets : ℕ
max_idle_buckets = 1000

-- One whole token, in units.
abbrev pub token : ℕ
token = 60000

abbrev pub MemoryTokenBuckets : Type 0
MemoryTokenBuckets = Dict MemoryBucket

abbrev pub full : TokenRate → ℕ
full rate = rate.capacity * token

-- The level of a bucket at `at`. ℕ subtraction is the source's `Math.max(0, …)`.
pub refilled : Option MemoryBucket → ℕ → TokenRate → ℕ
refilled none at rate = full rate
refilled (some state) at rate = min (full rate) (state.tokens + (at - state.at) * rate.per_minute)

pub refill : MemoryTokenBuckets → String → ℕ → TokenRate → ℕ
refill entries key at rate = refilled (get entries key) at rate

-- Whether the sweep keeps a bucket: it is not full yet.
pub is_used : ℕ → MemoryBucket → Bool
is_used at state = not (leb (full state.rate) (refilled (some state) at state.rate))

pub sweep : MemoryTokenBuckets → ℕ → MemoryTokenBuckets
sweep entries at =
    if leb (length entries) max_idle_buckets then entries else keep (is_used at) entries

-- `Math.ceil(n / d)`.
pub ceil_div : ℕ → ℕ → ℕ
ceil_div n d = (n + (d - 1)) / d

pub grant_of : ℕ → ℕ → TokenRate → TokenGrant
grant_of before count rate =
    let granted = min count (before / token) in
    record {
      granted = granted;
      wait_ms =
          if granted == count
          then 0
          else ceil_div (token - (before - granted * token)) rate.per_minute;
    }

pub take_now : MemoryTokenBuckets → String → ℕ → TokenRate → ℕ → MemoryTokenBuckets × TokenGrant
take_now entries key count rate at =
    let swept = sweep entries at in
    let before = refill swept key at rate in
    let grant = grant_of before count rate in
    (
      set swept key (record { tokens = before - grant.granted * token; at = at; rate = rate }),
      grant,
    )
