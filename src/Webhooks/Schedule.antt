-- ===== src/Webhooks/Schedule.antt =====
-- src/modules/webhooks/services/webhook-delivery-schedule.service.ts
use bunmail.Prelude.{ℕ, zero, suc, ◌+◌, ◌*◌, List, [], ◌∷◌, Option, none, some, get_elem?}

abbrev pub retry_backoff_minutes : List ℕ
retry_backoff_minutes = 1 ∷ 5 ∷ 15 ∷ 60 ∷ []

abbrev pub max_delivery_attempts : ℕ
max_delivery_attempts = 5

abbrev pub after_minutes : ℕ → Option ℕ → Option ℕ
after_minutes now none = none
after_minutes now (some minutes) = some (now + minutes * 60000)

-- The attempts are counted with the one that failed.
abbrev pub next_attempt_at : ℕ → ℕ → Option ℕ
next_attempt_at zero now = none
next_attempt_at (suc index) now = after_minutes now (get_elem? retry_backoff_minutes index)
