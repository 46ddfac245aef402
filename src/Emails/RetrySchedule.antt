-- ===== src/Emails/RetrySchedule.antt =====
-- src/modules/emails/services/retry-schedule.ts: when a temporary failure is retried.
use bunmail.Prelude.{
  ℕ, zero, suc, ◌+◌, ◌-◌, ◌*◌, ◌≤◌, ◌<◌, ◌⊎◌, ◌≡◌, min, max, List, [], ◌∷◌, Option, none, some, ltb,
  if◌then◌else◌, length, arith,
}

abbrev pub retry_schedule_minutes : List ℕ
retry_schedule_minutes = 5 ∷ 15 ∷ 30 ∷ 60 ∷ 120 ∷ 240 ∷ []

-- `list[i] ?? d`
unfoldable pub get_or : List ℕ → ℕ → ℕ → ℕ
get_or [] i d = d
get_or (x ∷ xs) zero d = x
get_or (x ∷ xs) (suc i) d = get_or xs i d

unfoldable pub minutes_for : ℕ → ℕ
unfolding get_or
minutes_for attempt =
    get_or retry_schedule_minutes (min (max attempt 1 - 1) (length retry_schedule_minutes - 1)) 240

pub next_retry_delay_ms : ℕ → ℕ → ℕ → Option ℕ
next_retry_delay_ms attempt age_ms max_age_ms =
    let delay_ms = minutes_for attempt * 60000 in
    if ltb max_age_ms (age_ms + delay_ms) then none else some delay_ms

pub minutes_for_bounds : (attempt : ℕ) → (5 ≤ minutes_for attempt) × (minutes_for attempt ≤ 240)
unfolding minutes_for
minutes_for_bounds zero = (omega arith, omega arith)
minutes_for_bounds (suc zero) = (omega arith, omega arith)
minutes_for_bounds (suc (suc zero)) = (omega arith, omega arith)
minutes_for_bounds (suc (suc (suc zero))) = (omega arith, omega arith)
minutes_for_bounds (suc (suc (suc (suc zero)))) = (omega arith, omega arith)
minutes_for_bounds (suc (suc (suc (suc (suc zero))))) = (omega arith, omega arith)
minutes_for_bounds (suc (suc (suc (suc (suc (suc n)))))) =
    let i : min (max (suc (suc (suc (suc (suc (suc n)))))) 1 - 1) 5 ≡ 5 = omega arith in
    rw i (omega arith, omega arith)

-- A retry is scheduled exactly when it still falls within the window.
pub next_retry_delay_ms_cases :
    (attempt age_ms max_age_ms : ℕ)
    → ((next_retry_delay_ms attempt age_ms max_age_ms ≡ none)
        × (max_age_ms < age_ms + minutes_for attempt * 60000))
      ⊎ ((next_retry_delay_ms attempt age_ms max_age_ms ≡ some (minutes_for attempt * 60000))
          × (age_ms + minutes_for attempt * 60000 ≤ max_age_ms))
unfolding next_retry_delay_ms
next_retry_delay_ms_cases attempt age_ms max_age_ms = ground arith
