-- ===== src/Emails/Tests.antt =====
-- Runs of the queue: what attempts make of an email.
use bunmail.Prelude.{
  ◌+◌, ◌*◌, ◌≤◌, ◌≡◌, refl, String, Bool, false, not, List, [], ◌∷◌, Option, none, some,
  if◌then◌else◌, leb, ◌&&◌, filter, ◌∙◌, str_eq,
}
use bunmail.Dict.{Dict}
use bunmail.Emails.Row.{RowStatus}
use bunmail.Emails.RetrySchedule.{minutes_for}
use bunmail.Emails.Delivery.{
  GroupStatus, sent, retry, failed, FailureKind, hard, soft, ParsedSmtpError, DeliveryGroup,
  DeliveryState, ClaimedEmail, SentAttempt,
}
use bunmail.Emails.Decision.{
  Settings, any_group, has_status, is_hard, decide_row_outcome, any_sent_before,
}
use bunmail.Emails.Decision.Terminal.{Ends, decide_row_outcome-Ends}
use bunmail.Emails.Decision.Window.{requeue_delay, requeue_delay_iff}
use bunmail.Emails.Decision.Events.{sent_events_in, sent_events_in-le-one}
use bunmail.Emails.Send.{drop_suppressed_recipients, prior_statuses_of}
use bunmail.Emails.Send.Suppressed.{all_due, all_due-drop}

abbrev parse_none : String → Option ParsedSmtpError
parse_none text = none

abbrev settings : Settings
settings = record {
  parse_smtp_error = parse_none;
  retry_max_age_ms = 3600000;
  now = 5;
  draw = 0;
  draws = 2;
}

abbrev email : ClaimedEmail
email = record {
  id = "e1";
  api_key_id = "k";
  from_address = "a@a.test";
  to_address = "b@b.test";
  subject = "s";
  tags = [];
  attempts = 1;
  age_ms = 60000;
}

abbrev group : GroupStatus → Option FailureKind → List String → DeliveryGroup
group status kind recipients = record {
  status = status;
  recipients = recipients;
  delivered_at = none;
  last_error = none;
  blocked = none;
  failure_kind = kind;
  failure_code = none;
  updated_at = none;
}

abbrev state : DeliveryState
state =
    ("mx.a", group sent none ("u@a" ∷ []))
    ∷ ("mx.b", group retry (some soft) ("v@b" ∷ "w@b" ∷ []))
    ∷ ("mx.c", group failed (some hard) ("x@c" ∷ []))
    ∷ []

abbrev is_suppressed : String → Bool
is_suppressed r = str_eq r "w@b"

abbrev attempt : SentAttempt
attempt = record { delivery_state = state; message_id = "m"; prior_statuses = []; deferred = none }

abbrev next_attempt : SentAttempt
next_attempt = record attempt { prior_statuses = prior_statuses_of state }

decide_row_outcome-Ends_example :
    Ends
      (λ v events s final.
        (any_group (has_status retry) final ≡ false)
        × (v.status ≡ s)
        × (s ≡ (
            if any_group (has_status sent) state
            then RowStatus.sent
            else if any_group (λ g. has_status failed g && is_hard parse_none g) final
            then RowStatus.bounced
            else RowStatus.failed)))
      (decide_row_outcome settings (record email { age_ms = 3500000 }) attempt)
decide_row_outcome-Ends_example =
    decide_row_outcome-Ends settings (record email { age_ms = 3500000 }) attempt

requeue_delay_iff_example : requeue_delay (decide_row_outcome settings email attempt) ≡ (
    if any_group (has_status retry) state && leb (60000 + minutes_for 1 * 60000) 3600000
    then some (minutes_for 1 * 60000)
    else none)
requeue_delay_iff_example = requeue_delay_iff settings email attempt refl

minutes_for_one : minutes_for 1 ≡ 5
unfolding minutes_for
minutes_for_one = refl

-- The attempt waits five minutes.
requeued_for : requeue_delay (decide_row_outcome settings email attempt) ≡ some 300000
requeued_for = requeue_delay_iff_example ∙ rw minutes_for_one refl

sent_events_in-le-one_example :
    sent_events_in settings
      ((email, attempt, is_suppressed, 0) ∷ (email, next_attempt, is_suppressed, 7) ∷ [])
    ≤ 1
unfolding any_sent_before prior_statuses_of drop_suppressed_recipients
sent_events_in-le-one_example =
    sent_events_in-le-one settings email attempt is_suppressed 0
      ((email, next_attempt, is_suppressed, 7) ∷ []) (refl, refl, refl)

all_due-drop_example :
    all_due is_suppressed 7 (drop_suppressed_recipients is_suppressed 7 state)
    ≡ filter (λ r. not (is_suppressed r)) (all_due is_suppressed 7 state)
all_due-drop_example = all_due-drop is_suppressed 7 state
