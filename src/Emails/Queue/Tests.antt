-- ===== src/Emails/Queue/Tests.antt =====
-- Runs of the queue.
use bunmail.Prelude.{ℕ, ◌≤◌, ◌≡◌, refl, String, Bool, true, false, [], ◌∷◌, ◌++◌, none, some, All}
use bunmail.Dict.{get}
use bunmail.Emails.Row.{RowStatus}
use bunmail.Emails.Delivery.{ClaimedEmail}
use bunmail.Emails.Decision.{Settings}
use bunmail.Emails.Attempt.{mailer_error, claim_of, send_claimed_email}
use bunmail.Emails.Queue.{EmailRow, Rows, chosen}
use bunmail.Emails.Queue.Pick.{
  Scan, key_rank, due, fair_due_emails, ids_of, claim_next_emails, ranked, per_keys, per_key,
  expired,
}
use bunmail.Emails.Queue.Fair.{fair_due_emails-ranks}
use bunmail.Emails.Queue.Log.{
  claim_events, save_events, Queue, by_claim, by_outcome, QueueSteps, none_left, next,
}
use bunmail.Emails.Queue.Fenced.{Fenced, Fenced-QueueSteps}
use bunmail.Emails.Queue.Fresh.{Fresh}
use bunmail.Emails.Queue.Numbers.{Fresh-QueueSteps}

abbrev waiting : String → ℕ → EmailRow
waiting key at = record {
  api_key_id = key;
  status = RowStatus.queued;
  attempts = 0;
  locked_by = none;
  lease_until = none;
  updated_at = at;
  next_attempt_at = at;
  created_at = at;
  deleted_at = none;
  attachment_bytes = 9;
}

-- Two emails of one key, then one of another.
abbrev table : Rows
table = ("a1", waiting "a" 1) ∷ ("a2", waiting "a" 2) ∷ ("b1", waiting "b" 3) ∷ []

abbrev scan_at : ℕ → Scan
scan_at now = record {
  now = now;
  locked = λ id. false;
  id_before = λ a b. false;
  api_keys = "a" ∷ "b" ∷ [];
}

-- A batch of two takes the first email of each key.
round_robin : ids_of (fair_due_emails (scan_at 5) 2 table) ≡ "a1" ∷ "b1" ∷ []
unfolding fair_due_emails ranked due per_keys per_key expired key_rank
round_robin = refl

fair_due_emails-ranks_example :
    All
      (λ e.
        chosen (ids_of (fair_due_emails (scan_at 5) 2 table)) e.0 ≡ false
        → All
            (λ o.
              key_rank (scan_at 5) (due (scan_at 5) 2 table) o
              ≤ key_rank (scan_at 5) (due (scan_at 5) 2 table) e)
            (fair_due_emails (scan_at 5) 2 table))
      (due (scan_at 5) 2 table)
fair_due_emails-ranks_example = fair_due_emails-ranks (scan_at 5) 2 table

-- A row in a claim whose lease runs until 900000.
abbrev leased : EmailRow
leased = record (waiting "a" 1) {
  status = RowStatus.sending;
  attempts = 1;
  locked_by = some "w";
  lease_until = some 900000;
}

-- Worker "w" claims the table, and its mailer fails for "a1".
abbrev empty_log : Queue
empty_log = record { rows = table; log = [] }

abbrev claimed_queue : Queue
claimed_queue = record {
  rows = (claim_next_emails table "w" (scan_at 5) 2).0;
  log = claim_events "w" (claim_next_emails table "w" (scan_at 5) 2).1 ++ [];
}

abbrev settings : Settings
settings = record {
  parse_smtp_error = λ text. none;
  retry_max_age_ms = 1000;
  now = 6;
  draw = 0;
  draws = 1;
}

abbrev first_email : ClaimedEmail
first_email = record {
  id = "a1";
  api_key_id = "a";
  from_address = "f";
  to_address = "t";
  subject = "s";
  tags = [];
  attempts = 1;
  age_ms = 4;
}

abbrev saving : Rows × Bool
saving =
    send_claimed_email claimed_queue.rows "w" settings first_email true true none
      (mailer_error "bad") 6

abbrev saved_queue : Queue
saved_queue = record {
  rows = saving.0;
  log = save_events "w" (claim_of first_email) saving.1 ++ claimed_queue.log;
}

abbrev two_steps : QueueSteps empty_log saved_queue
two_steps =
    next (by_claim "w" (scan_at 5) 2)
      (next (by_outcome "w" settings first_email true true none (mailer_error "bad") 6) none_left)

Fenced-QueueSteps_example : Fenced saved_queue.log
Fenced-QueueSteps_example = Fenced-QueueSteps table saved_queue (refl, (refl, (refl, tt))) two_steps

Fresh-QueueSteps_example : Fresh saved_queue.log
unfolding get
Fresh-QueueSteps_example = Fresh-QueueSteps table saved_queue (refl, (refl, (refl, tt))) two_steps
