-- ===== src/Emails/Decision/Window.antt =====
-- When an email goes back to the queue, and when it ends.
use bunmail.Prelude.{
  ℕ, ◌+◌, ◌*◌, ◌≤◌, sym, ◌≡◌, refl, true, false, not, ◌&&◌, [], ◌∷◌, Option, none, some,
  if◌then◌else◌, leb, arith, any, Bool-cases, Option-cases, inl, inr, ◌∙◌,
}
use bunmail.Emails.Row.{unchanged, to}
use bunmail.Emails.RetrySchedule.{minutes_for, next_retry_delay_ms, next_retry_delay_ms_cases}
use bunmail.Emails.Delivery.{retry, DeliveryState, ClaimedEmail, SentAttempt}
use bunmail.Emails.Decision.{
  Entry, Settings, has_status, any_group, real_retry, attempted, to_backoff, backoff_of,
  defer_ms_of, delay_of, end_row, retry_delay_of, RowOutcome, deferred, requeued, terminal, requeue,
  deferral, decide_row_outcome,
}

retry_delay_of-some :
    (c : Settings) (email : ClaimedEmail) (a : SentAttempt) (ms : ℕ)
    → retry_delay_of c email a ≡ some ms
    → (any_group (has_status retry) a.delivery_state ≡ true)
      × (email.age_ms + ms ≤ c.retry_max_age_ms)
      × (delay_of (backoff_of c email a) (defer_ms_of c a) ≡ some ms)
unfolding retry_delay_of
retry_delay_of-some c email a ms h = ground arith

delay_of-le :
    (attempt age max : ℕ) (d : Option ℕ) (ms : ℕ)
    → delay_of (to_backoff (next_retry_delay_ms attempt age max)) d ≡ some ms
    → minutes_for attempt * 60000 ≤ ms
unfolding delay_of
delay_of-le attempt age max none ms h = ground (arith, next_retry_delay_ms_cases attempt age max)
delay_of-le attempt age max (some y) ms h =
    ground (arith, next_retry_delay_ms_cases attempt age max)

backoff_le :
    (c : Settings) (email : ClaimedEmail) (a : SentAttempt) (d : Option ℕ) (ms : ℕ)
    → delay_of (backoff_of c email a) d ≡ some ms
    → (if real_retry a then minutes_for email.attempts * 60000 else 0) ≤ ms
unfolding backoff_of
backoff_le c email a d ms h = elim (Bool-cases (real_retry a)) [
  | inl tried ↦ rw tried (
      delay_of-le email.attempts email.age_ms c.retry_max_age_ms d ms (rw (tried, backoff_of) at h))
  | inr held ↦ rw held (omega arith)
]

-- How long an outcome that puts the row back into the queue makes it wait.
abbrev pub requeue_delay : RowOutcome → Option ℕ
requeue_delay (deferred v events ms n) = some ms
requeue_delay (requeued v events seconds n) = elim v.next_attempt_in_ms [
  | unchanged ↦ none
  | to ms ↦ some ms
]
requeue_delay (terminal v events s final) = none

requeue_delay_lem :
    (c : Settings) (email : ClaimedEmail) (a : SentAttempt)
    → requeue_delay (decide_row_outcome c email a) ≡ retry_delay_of c email a
unfolding decide_row_outcome requeue deferral end_row
requeue_delay_lem c email a = elim (Option-cases (retry_delay_of c email a)) [
  | inl over ↦ rw (over, decide_row_outcome) refl
  | inr (ms, wait) ↦
      rw (wait, decide_row_outcome)
        (elim (Bool-cases (attempted a)) [ inl tried ↦ rw tried refl | inr held ↦ rw held refl ])
]

-- An email goes back to the queue only while some group is still to be retried, only for a time
-- that ends within the retry window, and, where a group was really tried and failed for now, for
-- at least the scheduled backoff, however short the wait for a token is.
pub requeue_delay-Waits :
    (c : Settings) (email : ClaimedEmail) (a : SentAttempt) (ms : ℕ)
    → requeue_delay (decide_row_outcome c email a) ≡ some ms
    → (any_group (has_status retry) a.delivery_state ≡ true)
      × (email.age_ms + ms ≤ c.retry_max_age_ms)
      × ((if real_retry a then minutes_for email.attempts * 60000 else 0) ≤ ms)
requeue_delay-Waits c email a ms h =
    let (left, fits, delay) =
      retry_delay_of-some c email a ms (sym (requeue_delay_lem c email a) ∙ h) in
    (left, fits, backoff_le c email a (defer_ms_of c a) ms delay)

no_deferral :
    (a : SentAttempt)
    → a.deferred ≡ none
    → real_retry a ≡ any_group (has_status retry) a.delivery_state
unfolding real_retry
no_deferral a h = rw h (undeferred a.delivery_state)
  where
    undeferred :
        (state : DeliveryState)
        → any (λ (e : Entry). has_status retry e.1 && not false) state
          ≡ any_group (has_status retry) state
    undeferred [] = refl
    undeferred (e ∷ state) = rw (undeferred state) (ground arith)

-- Where the rate budget held nothing back, an email goes back to the queue exactly when some group
-- is still to be retried and the next backoff ends within the retry window: it is given up no
-- earlier.
pub requeue_delay_iff :
    (c : Settings) (email : ClaimedEmail) (a : SentAttempt)
    → a.deferred ≡ none
    → requeue_delay (decide_row_outcome c email a) ≡ (
        if any_group (has_status retry) a.delivery_state
          && leb (email.age_ms + minutes_for email.attempts * 60000) c.retry_max_age_ms
        then some (minutes_for email.attempts * 60000)
        else none)
unfolding retry_delay_of backoff_of defer_ms_of delay_of
requeue_delay_iff c email a h =
    requeue_delay_lem c email a
    ∙ ground (
      arith,
      h,
      no_deferral a h,
      next_retry_delay_ms_cases email.attempts email.age_ms c.retry_max_age_ms,
    )
