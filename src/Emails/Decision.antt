-- ===== src/Emails/Decision.antt =====
-- src/modules/emails/services/queue-decision.service.ts: what a send attempt makes of its row.
-- Parameters: the reading of an SMTP error text (src/utils/smtp-error.ts), the retry window, the
-- clock for a missing delivery time, and the random draw of the jitter.
pub mod Terminal
pub mod Window
pub mod Events
pub mod Releases
use bunmail.Prelude.{
  ℕ, suc, ◌+◌, ◌-◌, ◌/◌, min, max, String, Bool, true, false, not, ◌&&◌, ◌||◌, List, [], ◌∷◌,
  Option, none, some, leb, ltb, ◌==◌, if◌then◌else◌, str_eq, ◌++◌, any, all, filter, length,
  decimal, join, ◌&◌, map,
}
use bunmail.Dict.{Dict, get, values}
use bunmail.Emails.RetrySchedule.{next_retry_delay_ms}
use bunmail.Emails.Deferral.{deferral_delay_ms}
use bunmail.Emails.Row.{RowStatus, RowValues, Change, unchanged, to}
use bunmail.Emails.Delivery.{
  GroupStatus, sent, retry, failed, status_eq, FailureKind, hard, ParsedSmtpError, DeliveryGroup,
  DeliveryState, ClaimedEmail, Deferred, SentAttempt, OutcomeEvent, email_sent, email_failed,
}

abbrev pub Entry : Type 0
Entry = String × DeliveryGroup

-- Whether `key` stands in the list.
abbrev pub member : List String → String → Bool
member keys key = any (λ k. str_eq k key) keys

abbrev pub has_status : GroupStatus → DeliveryGroup → Bool
has_status s g = status_eq g.status s

abbrev earliest : Option ℕ → Option ℕ → Option ℕ
earliest none b = b
earliest (some a) none = some a
earliest (some a) (some b) = some (min a b)

pub first_delivered_at : List DeliveryGroup → Option ℕ
first_delivered_at [] = none
first_delivered_at (g ∷ gs) = earliest g.delivered_at (first_delivered_at gs)

unfoldable pub any_sent_before : Dict GroupStatus → Bool
unfolding values
any_sent_before prior = any (λ s. status_eq s sent) (values prior)

abbrev error_or : Option String → String → String
error_or none d = d
error_or (some e) d = e

-- One group of a digest.
pub digest : Entry → String → String
digest (mx, g) text = mx & " (" & decimal (length g.recipients) & " rcpt): " & text

pub summarise_retries : DeliveryState → List String → String
unfolding digest
summarise_retries state deferred =
    let retrying = filter (λ (e : Entry). has_status retry e.1) state in
    let line = λ (e : Entry). digest e (
      if member deferred e.0
      then "deferred by the provider rate budget"
      else error_or e.1.last_error "?") in
    if length retrying == 0
    then ""
    else "Retrying " & decimal (length retrying) & " group(s): " & join " | " (map line retrying)

pub summarise_failures : DeliveryState → String
unfolding digest
summarise_failures state =
    let failures = filter (λ (e : Entry). has_status failed e.1) state in
    let line = λ (e : Entry). digest e (error_or e.1.last_error "?") in
    if length failures == 0
    then ""
    else "Failed " & decimal (length failures) & " group(s): " & join " | " (map line failures)

abbrev pub rate_budget_exhausted : String
rate_budget_exhausted =
    "Not sent within the retry window: provider rate budget (MAIL_MX_RATE_PER_MIN)"

-- `failureOf(group)`, by its two fields and `lastError`.
pub failure_of : (String → Option ParsedSmtpError) → DeliveryGroup → Option ParsedSmtpError
failure_of parse g = elim g.failure_kind [
  | some kind ↦ some (record { kind = kind; code = error_or g.failure_code "" })
  | none ↦ elim g.last_error [
    | none ↦ none
    | some text ↦ if str_eq text "" then none else parse text
  ]
]

abbrev is_hard_kind : FailureKind → Bool
is_hard_kind hard = true
is_hard_kind _ = false

pub is_hard : (String → Option ParsedSmtpError) → DeliveryGroup → Bool
unfolding failure_of
is_hard parse g = elim (failure_of parse g) [ none ↦ false | some e ↦ is_hard_kind e.kind ]

-- A straggling `retry` group ends as `failed`; any other stays.
pub finished : List String → Entry → Entry
finished deferred (mx, g) = if not (has_status retry g) then (mx, g) else (
  mx,
  if member deferred mx
      then record g {
        status = failed;
        last_error = some (error_or g.last_error rate_budget_exhausted);
      }
      else record g { status = failed },
)

pub finish : List String → DeliveryState → DeliveryState
unfolding finished
finish deferred [] = []
finish deferred (e ∷ state) = finished deferred e ∷ finish deferred state

-- The failure texts' reading, the configured window, the clock and the jitter's draw.
pub record Settings : Type 0 where
  pub parse_smtp_error : String → Option ParsedSmtpError
  pub retry_max_age_ms : ℕ
  pub now : ℕ
  pub draw : ℕ
  pub draws : ℕ

-- `new Set(sent.deferred?.keys ?? [])`
abbrev pub deferred_keys : SentAttempt → List String
deferred_keys a = elim a.deferred [ none ↦ [] | some d ↦ d.keys ]

abbrev pub any_group : (DeliveryGroup → Bool) → DeliveryState → Bool
any_group p state = any (λ (e : Entry). p e.1) state

-- A group still to be tried that the rate budget did not hold back.
pub real_retry : SentAttempt → Bool
real_retry a =
    any (λ (e : Entry). has_status retry e.1 && not (member (deferred_keys a) e.0)) a.delivery_state

abbrev status_differs : Option GroupStatus → GroupStatus → Bool
status_differs none s = true
status_differs (some t) s = not (status_eq t s)

-- An entry tried, or newly terminal.
pub attempted : SentAttempt → Bool
attempted a =
    real_retry a
    || any
        (λ (e : Entry).
          (has_status sent e.1 || has_status failed e.1)
          && status_differs (get a.prior_statuses e.0) e.1.status)
        a.delivery_state

-- `backoffMs`: undefined, null or a number.
pub data Backoff : Type 0 where
  not_needed window_over : Backoff
  backoff : ℕ → Backoff

abbrev pub to_backoff : Option ℕ → Backoff
to_backoff none = window_over
to_backoff (some ms) = backoff ms

pub backoff_of : Settings → ClaimedEmail → SentAttempt → Backoff
backoff_of c email a =
    if real_retry a
    then to_backoff (next_retry_delay_ms email.attempts email.age_ms c.retry_max_age_ms)
    else not_needed

pub defer_ms_of : Settings → SentAttempt → Option ℕ
defer_ms_of c a = elim a.deferred [
  | none ↦ none
  | some d ↦
      if ltb 0 (length d.keys) then some (deferral_delay_ms d.wait_ms c.draw c.draws) else none
]

-- `delayMs`
pub delay_of : Backoff → Option ℕ → Option ℕ
delay_of window_over d = none
delay_of not_needed d = d
delay_of (backoff ms) none = some ms
delay_of (backoff ms) (some d) = some (max ms d)

-- A delay that ends within the retry window.
abbrev pub within : ℕ → ℕ → Option ℕ → Option ℕ
within age_ms max_age_ms none = none
within age_ms max_age_ms (some ms) = if leb (age_ms + ms) max_age_ms then some ms else none

-- `retryDelayMs`
pub retry_delay_of : Settings → ClaimedEmail → SentAttempt → Option ℕ
retry_delay_of c email a =
    if any_group (has_status retry) a.delivery_state
    then within email.age_ms c.retry_max_age_ms (delay_of (backoff_of c email a) (defer_ms_of c a))
    else none

pub data RowOutcome : Type 0 where
  deferred : RowValues → List OutcomeEvent → ℕ → ℕ → RowOutcome
  requeued : RowValues → List OutcomeEvent → ℕ → ℕ → RowOutcome
  terminal : RowValues → List OutcomeEvent → RowStatus → DeliveryState → RowOutcome

-- Nothing was sent or tried: the attempt is not counted.
pub deferral : ClaimedEmail → SentAttempt → ℕ → RowOutcome
deferral email a ms =
    deferred
      (record {
        status = RowStatus.queued;
        next_attempt_in_ms = to ms;
        attempts = to (email.attempts - 1);
        message_id = to a.message_id;
        delivery_state = to a.delivery_state;
        sent_at = unchanged;
        last_error = unchanged;
      })
      [] ms (length (deferred_keys a))

-- `anySent && !anySentBefore(priorStatuses) ? [sentEvent] : []`
pub sent_events : ClaimedEmail → SentAttempt → Bool → List OutcomeEvent
unfolding any_sent_before
sent_events email a any_sent =
    if any_sent && not (any_sent_before a.prior_statuses)
    then email_sent email a.message_id ∷ []
    else []

pub requeue : ClaimedEmail → SentAttempt → ℕ → RowOutcome
unfolding sent_events first_delivered_at summarise_retries values
requeue email a ms =
    requeued
      (record {
        status = RowStatus.queued;
        next_attempt_in_ms = to ms;
        attempts = unchanged;
        message_id = to a.message_id;
        delivery_state = to a.delivery_state;
        sent_at = to (first_delivered_at (values a.delivery_state));
        last_error = to (some (summarise_retries a.delivery_state (deferred_keys a)));
      })
      (sent_events email a (any_group (has_status sent) a.delivery_state)) ((ms + 500) / 1000)
      (length (deferred_keys a))

pub final_status : (String → Option ParsedSmtpError) → DeliveryState → RowStatus
unfolding is_hard
final_status parse final =
    if any_group (has_status sent) final
    then RowStatus.sent
    else if any_group (λ g. has_status failed g && is_hard parse g) final
    then RowStatus.bounced
    else RowStatus.failed

abbrev is_failed : RowStatus → Bool
is_failed RowStatus.failed = true
is_failed _ = false

abbrev is_blocked : DeliveryGroup → Bool
is_blocked g = elim g.blocked [ none ↦ false | some b ↦ b ]

pub final_events : ClaimedEmail → SentAttempt → DeliveryState → RowStatus → List OutcomeEvent
unfolding sent_events summarise_failures
final_events email a final s =
    let any_sent = any_group (has_status sent) final in
    sent_events email a any_sent
    ++ (if not any_sent && is_failed s
        then email_failed email (summarise_failures final) (any_group is_blocked final) ∷ []
        else [])

abbrev or_now : Option ℕ → ℕ → ℕ
or_now none now = now
or_now (some t) now = t

pub end_row : Settings → ClaimedEmail → SentAttempt → RowOutcome
unfolding finish final_status final_events first_delivered_at summarise_failures values
end_row c email a =
    let final = finish (deferred_keys a) a.delivery_state in
    let s = final_status c.parse_smtp_error final in
    let any_sent = any_group (has_status sent) final in
    let all_sent = any_sent && all (λ (e : Entry). has_status sent e.1) final in
    terminal
      (record {
        status = s;
        next_attempt_in_ms = unchanged;
        attempts = unchanged;
        message_id = to a.message_id;
        delivery_state = to final;
        sent_at =
            to (if any_sent then some (or_now (first_delivered_at (values final)) c.now) else none);
        last_error = to (if all_sent then none else some (summarise_failures final));
      })
      (final_events email a final s) s final

pub decide_row_outcome : Settings → ClaimedEmail → SentAttempt → RowOutcome
decide_row_outcome c email a = elim (retry_delay_of c email a) [
  | none ↦ end_row c email a
  | some ms ↦ if attempted a then requeue email a ms else deferral email a ms
]
