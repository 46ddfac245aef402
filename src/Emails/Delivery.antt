-- ===== src/Emails/Delivery.antt =====
-- src/modules/emails/models/email.schema.ts and the types that a send attempt produces.
-- A delivery group has the fields that the queue reads or writes; instants are milliseconds.
use bunmail.Prelude.{ℕ, String, Bool, true, false, List, Option}
use bunmail.Dict.{Dict}

pub data GroupStatus : Type 0 where
  sent retry failed : GroupStatus

abbrev pub status_eq : GroupStatus → GroupStatus → Bool
status_eq sent sent = true
status_eq retry retry = true
status_eq failed failed = true
status_eq _ _ = false

pub data FailureKind : Type 0 where
  hard policy soft : FailureKind

pub record ParsedSmtpError : Type 0 where
  pub kind : FailureKind
  pub code : String

pub record DeliveryGroup : Type 0 where
  pub status : GroupStatus
  pub recipients : List String
  pub delivered_at : Option ℕ
  pub last_error : Option String
  pub blocked : Option Bool
  pub failure_kind : Option FailureKind
  pub failure_code : Option String
  pub updated_at : Option ℕ

abbrev pub DeliveryState : Type 0
DeliveryState = Dict DeliveryGroup

-- A row that the claim returned, as far as the queue reads it.
pub record ClaimedEmail : Type 0 where
  pub id : String
  pub api_key_id : String
  pub from_address : String
  pub to_address : String
  pub subject : String
  pub tags : List (String × String)
  pub attempts : ℕ
  pub age_ms : ℕ

-- Entries that the rate budget kept from an attempt, and the wait until a token is due.
pub record Deferred : Type 0 where
  pub keys : List String
  pub wait_ms : ℕ

pub record SentAttempt : Type 0 where
  pub delivery_state : DeliveryState
  pub message_id : String
  pub prior_statuses : Dict GroupStatus
  pub deferred : Option Deferred

-- Webhook events, with the email whose fields their data repeats.
pub data OutcomeEvent : Type 0 where
  email_sent : ClaimedEmail → String → OutcomeEvent
  email_failed : ClaimedEmail → String → Bool → OutcomeEvent
