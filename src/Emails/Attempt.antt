-- ===== src/Emails/Attempt.antt =====
-- src/modules/emails/services/queue-send.service.ts: what one attempt to send a claimed email saves.
-- Parameters: whether the API key is active, the sender's domain, and what the mailer did.
use bunmail.Prelude.{
  ℕ, ◌+◌, ◌*◌, ◌/◌, refl, String, Bool, true, false, not, Option, none, some, if◌then◌else◌, ◌&◌,
  inl, inr, Option-cases,
}
use bunmail.Emails.RetrySchedule.{next_retry_delay_ms}
use bunmail.Emails.Row.{RowStatus, RowValues, unchanged, to}
use bunmail.Emails.Delivery.{ClaimedEmail, SentAttempt}
use bunmail.Emails.Decision.{Settings, decide_row_outcome}
use bunmail.Emails.Decision.Releases.{values_of, Releases, decide_row_outcome-Releases}
use bunmail.Emails.Queue.{Rows, Claim, release_row}

pub record SenderDomain : Type 0 where
  pub name : String
  pub dkim_key_unreadable : Bool

pub data MailerResult : Type 0 where
  mailed : SentAttempt → MailerResult
  signing_failed : String → MailerResult
  mailer_error : String → MailerResult

abbrev pub failed_with : String → RowValues
failed_with message = record {
  status = RowStatus.failed;
  next_attempt_in_ms = unchanged;
  attempts = unchanged;
  message_id = unchanged;
  delivery_state = unchanged;
  sent_at = unchanged;
  last_error = to (some message);
}

-- `holdForDkimKey`: the wait is in whole seconds.
abbrev pub held_until : Option ℕ → String → RowValues
held_until none message = failed_with message
held_until (some ms) message = record (failed_with message) {
  status = RowStatus.queued;
  next_attempt_in_ms = to ((ms + 500) / 1000 * 1000);
}

unfoldable pub hold_for_dkim_key : Settings → ClaimedEmail → String → RowValues
hold_for_dkim_key c email message =
    held_until (next_retry_delay_ms email.attempts email.age_ms c.retry_max_age_ms) message

abbrev pub unreadable : Option SenderDomain → Option String
unreadable none = none
unreadable (some d) = if d.dkim_key_unreadable then some d.name else none

abbrev pub mailer_values : Settings → ClaimedEmail → MailerResult → RowValues
mailer_values c email (mailed a) = values_of (decide_row_outcome c email a)
mailer_values c email (signing_failed domain) =
    hold_for_dkim_key c email
      ("DKIM key for " & domain & " cannot be used to sign: not sent unsigned")
mailer_values c email (mailer_error message) = failed_with message

abbrev pub unless_held : Settings → ClaimedEmail → Bool → Option String → MailerResult → RowValues
unless_held c email production none result = mailer_values c email result
unless_held c email production (some domain) result =
    if production
    then hold_for_dkim_key c email (
        "DKIM key for " & domain
        & " cannot be decrypted with DKIM_ENCRYPTION_KEY: not sent unsigned")
    else mailer_values c email result

unfoldable pub attempt_values :
    Settings → ClaimedEmail → Bool → Bool → Option SenderDomain → MailerResult → RowValues
attempt_values c email key_active production domain result =
    if not key_active
    then failed_with "API key revoked before delivery"
    else unless_held c email production (unreadable domain) result

abbrev pub claim_of : ClaimedEmail → Claim
claim_of email = record { email_id = email.id; attempt = email.attempts }

-- `sendClaimedEmail`, by what it saves
abbrev pub send_claimed_email :
    Rows
    → String
    → Settings
    → ClaimedEmail
    → Bool
    → Bool
    → Option SenderDomain
    → MailerResult
    → ℕ
    → Rows × Bool
send_claimed_email rows worker c email key_active production domain result now =
    release_row rows worker (claim_of email)
      (attempt_values c email key_active production domain result) now

failed_with-Releases :
    (email : ClaimedEmail) (message : String) → Releases email (failed_with message)
failed_with-Releases email message = (refl, inl refl)

hold_for_dkim_key-Releases :
    (c : Settings) (email : ClaimedEmail) (message : String)
    → Releases email (hold_for_dkim_key c email message)
unfolding hold_for_dkim_key
hold_for_dkim_key-Releases c email message =
    elim (Option-cases (next_retry_delay_ms email.attempts email.age_ms c.retry_max_age_ms)) [
      | inl over ↦ rw over (refl, inl refl)
      | inr (ms, again) ↦ rw again (refl, inl refl)
    ]

mailer_values-Releases :
    (c : Settings) (email : ClaimedEmail) (result : MailerResult)
    → Releases email (mailer_values c email result)
mailer_values-Releases c email (mailed a) = decide_row_outcome-Releases c email a
mailer_values-Releases c email (signing_failed domain) = hold_for_dkim_key-Releases c email _
mailer_values-Releases c email (mailer_error message) = failed_with-Releases email message

unless_held-Releases :
    (c : Settings) (email : ClaimedEmail) (production : Bool) (domain : Option String)
    (result : MailerResult)
    → Releases email (unless_held c email production domain result)
unless_held-Releases c email production none result = mailer_values-Releases c email result
unless_held-Releases c email true (some domain) result = hold_for_dkim_key-Releases c email _
unless_held-Releases c email false (some domain) result = mailer_values-Releases c email result

-- Whatever an attempt finds, what it saves takes the row out of the sending status, and it leaves
-- the number of attempts or takes this one back.
pub attempt_values-Releases :
    (c : Settings) (email : ClaimedEmail) (key_active production : Bool)
    (domain : Option SenderDomain) (result : MailerResult)
    → Releases email (attempt_values c email key_active production domain result)
unfolding attempt_values
attempt_values-Releases c email true production domain result =
    unless_held-Releases c email production (unreadable domain) result
attempt_values-Releases c email false production domain result =
    failed_with-Releases email "API key revoked before delivery"
