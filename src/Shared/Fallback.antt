-- ===== src/Shared/Fallback.antt =====
-- src/utils/shared-store.ts: `reportFallback`, which logs that the shared store is away at most
-- once a minute for each namespace. A log line is its `suppressedSinceLast`.
pub mod Reports
use bunmail.Prelude.{ℕ, ◌+◌, String, Option, none, some, ltb, if◌then◌else◌}
use bunmail.Dict.{Dict, get, set}

abbrev pub fallback_log_interval_ms : ℕ
fallback_log_interval_ms = 60000

pub record FallbackLogged : Type 0 where
  pub at : ℕ
  pub suppressed : ℕ

abbrev pub suppressed_of : Option FallbackLogged → ℕ
suppressed_of none = 0
suppressed_of (some last) = last.suppressed

pub log_line :
    Dict FallbackLogged → String → Option FallbackLogged → ℕ → Dict FallbackLogged × Option ℕ
log_line m namespace last at =
    (set m namespace (record { at = at; suppressed = 0 }), some (suppressed_of last))

pub report_fallback : Dict FallbackLogged → String → ℕ → Dict FallbackLogged × Option ℕ
unfolding log_line
report_fallback m namespace at = elim (get m namespace) [
  | none ↦ log_line m namespace none at
  | some last ↦
      if ltb at (last.at + fallback_log_interval_ms)
      then (set m namespace (record last { suppressed = last.suppressed + 1 }), none)
      else log_line m namespace (some last) at
]
