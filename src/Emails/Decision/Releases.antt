-- ===== src/Emails/Decision/Releases.antt =====
-- What an outcome does to the status of its row and to the number of attempts.
use bunmail.Prelude.{
  String, Option, ◌-◌, ◌≡◌, refl, ◌⊎◌, inl, inr, false, Option-cases, Bool-cases, arith,
}
use bunmail.Emails.Row.{RowValues, unchanged, to}
use bunmail.Emails.Delivery.{DeliveryState, ParsedSmtpError, ClaimedEmail, SentAttempt}
use bunmail.Emails.Decision.{
  Settings, RowOutcome, deferred, requeued, terminal, decide_row_outcome, deferral, requeue,
  end_row, final_status, retry_delay_of, attempted, finish, deferred_keys,
}
use bunmail.Emails.Queue.{is_sending}

abbrev pub values_of : RowOutcome → RowValues
values_of (deferred values _ _ _) = values
values_of (requeued values _ _ _) = values
values_of (terminal values _ _ _) = values

-- The row leaves the sending status, and at most the attempt is taken back.
abbrev pub Releases : ClaimedEmail → RowValues → Type 0
Releases email values =
    (is_sending values.status ≡ false)
    × ((values.attempts ≡ unchanged) ⊎ (values.attempts ≡ to (email.attempts - 1)))

final_status-is_sending :
    (parse : String → Option ParsedSmtpError) (final : DeliveryState)
    → is_sending (final_status parse final) ≡ false
unfolding final_status
final_status-is_sending parse final = ground arith

pub decide_row_outcome-Releases :
    (c : Settings) (email : ClaimedEmail) (a : SentAttempt)
    → Releases email (values_of (decide_row_outcome c email a))
unfolding decide_row_outcome deferral requeue end_row
decide_row_outcome-Releases c email a = elim (Option-cases (retry_delay_of c email a)) [
  | inl over ↦
      rw (values_of, over)
        (
          final_status-is_sending c.parse_smtp_error (finish (deferred_keys a) a.delivery_state),
          inl refl,
        )
  | inr (ms, again) ↦
      rw (values_of, again)
        (elim (Bool-cases (attempted a)) [
          | inl t ↦ rw t (refl, inl refl)
          | inr f ↦ rw f (refl, inr refl)
        ])
]
