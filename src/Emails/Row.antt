-- ===== src/Emails/Row.antt =====
-- src/modules/emails/models/email.schema.ts: the status of an email's row, and what an outcome sets.
use bunmail.Prelude.{ℕ, String, Option}
use bunmail.Emails.Delivery.{DeliveryState}

pub data RowStatus : Type 0 where
  queued sending sent failed bounced : RowStatus

-- A column of an update: left out of it, or set.
pub data Change {ℓ} (A : Type ℓ) : Type ℓ where
  unchanged : Change A
  to : A → Change A

-- The columns that an outcome sets; `next_attempt_in_ms` is counted from the database's clock.
pub record RowValues : Type 0 where
  pub status : RowStatus
  pub next_attempt_in_ms : Change ℕ
  pub attempts : Change ℕ
  pub message_id : Change String
  pub delivery_state : Change DeliveryState
  pub sent_at : Change (Option ℕ)
  pub last_error : Change (Option String)
