-- ===== src/Inbound/Throttle.antt =====
-- src/modules/inbound/services/notify-throttle.ts: `NotifyThrottle`, the budgets of the
-- notifications about inbound mail. Times are milliseconds and an argument; what
-- `String.prototype.toLowerCase` makes of a recipient is a parameter.
pub mod Skipped
mod Tests
use Prim.Native.Char.{code}
use Prim.Native.String
use bunmail.Prelude.{
  ℕ, suc, ◌+◌, String, Bool, true, false, not, ◌&&◌, List, [], ◌∷◌, Option, none, some, leb, ltb,
  ◌==◌, if◌then◌else◌,
}
use bunmail.Dict.{Dict, get, set, delete, keep}
use bunmail.Middleware.RateLimit.{
  RateLimitMap, RateLimitOptions, RateLimitDecision, allowed, limited, check_rate_limit,
  prune_expired_entries,
}

abbrev pub notify_throttle_max : ℕ
notify_throttle_max = 5

abbrev pub notify_domain_throttle_max : ℕ
notify_domain_throttle_max = 30

abbrev pub notify_throttle_window_ms : ℕ
notify_throttle_window_ms = 600000

abbrev pub skipped_retention_ms : ℕ
skipped_retention_ms = 86400000

pub record SkippedNotifications : Type 0 where
  pub count : ℕ
  pub since : ℕ

pub data Budget : Type 0 where
  address domain : Budget

pub data NotifyThrottleDecision : Type 0 where
  notify : Option SkippedNotifications → NotifyThrottleDecision
  skip : Budget → Bool → NotifyThrottleDecision

pub record NotifyThrottle : Type 0 where
  pub addresses : RateLimitMap
  pub domains : RateLimitMap
  pub skipped : Dict SkippedNotifications

abbrev pub address_options : RateLimitOptions
address_options = record { max = notify_throttle_max; window_ms = notify_throttle_window_ms }

abbrev pub domain_options : RateLimitOptions
domain_options = record { max = notify_domain_throttle_max; window_ms = notify_throttle_window_ms }

pub is_spent : RateLimitMap → String → ℕ → ℕ → Bool
is_spent m key now max = elim (get m key) [
  | none ↦ false
  | some e ↦ not (leb (e.window_start + notify_throttle_window_ms) now) && leb max e.count
]

-- `text.slice(text.lastIndexOf("@") + 1)`: `rest` is what follows the last sign so far.
pub after_last_at : String → String → String
after_last_at rest String.[] = rest
after_last_at rest (String.◌∷◌ c s) = after_last_at (if code c == b'@' then s else rest) s

pub domain_of : String → String
domain_of key = after_last_at key key

pub record_skipped : Dict SkippedNotifications → String → ℕ → Dict SkippedNotifications
record_skipped m key now = elim (get m key) [
  | none ↦ set m key (record { count = 1; since = now })
  | some pending ↦ set m key (record pending { count = pending.count + 1 })
]

abbrev first_over : RateLimitDecision → ℕ → Bool
first_over allowed max = false
first_over (limited count retry) max = count == max + 1

-- `check` once the budget of the address is not spent.
pub check_domain : NotifyThrottle → String → ℕ → NotifyThrottle × NotifyThrottleDecision
check_domain t key now =
    let (domains, decision) = check_rate_limit t.domains (domain_of key) now domain_options 1 in
    elim decision [
      | limited count retry ↦ (
        record t { domains = domains; skipped = record_skipped t.skipped key now },
        skip domain (count == notify_domain_throttle_max + 1),
      )
      | allowed ↦ (
        record {
          addresses = (check_rate_limit t.addresses key now address_options 1).0;
          domains = domains;
          skipped = delete t.skipped key;
        },
        notify (get t.skipped key),
      )
    ]

module _ (to_lower_case : String → String) where
  pub check : NotifyThrottle → String → ℕ → NotifyThrottle × NotifyThrottleDecision
  check t recipient now =
      let key = to_lower_case recipient in
      if is_spent t.addresses key now notify_throttle_max
      then (let (addresses, decision) = check_rate_limit t.addresses key now address_options 1 in
          (
            record t { addresses = addresses; skipped = record_skipped t.skipped key now },
            skip address (first_over decision notify_throttle_max),
          ))
      else check_domain t key now

pub prune : NotifyThrottle → ℕ → NotifyThrottle
prune t now = record {
  addresses = (prune_expired_entries t.addresses now notify_throttle_window_ms).0;
  domains = (prune_expired_entries t.domains now notify_throttle_window_ms).0;
  skipped = keep (λ p. not (leb (p.since + skipped_retention_ms) now)) t.skipped;
}
