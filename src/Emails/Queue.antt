-- ===== src/Emails/Queue.antt =====
-- src/modules/emails/services/queue-claim.service.ts: the leases on the rows of emails, with the
-- other updates of those rows (email-trash.service.ts, and bounce-handler.service.ts of
-- src/modules/bounces/services).
pub mod Pick
pub mod Fair
pub mod Lease
pub mod Log
pub mod Held
pub mod Fenced
pub mod Fresh
pub mod Numbers
pub mod Batch
mod Tests
use bunmail.Prelude.{
  ℕ, suc, ◌+◌, ◌*◌, String, Bool, true, false, not, ◌&&◌, ◌||◌, List, [], ◌∷◌, Option, none, some,
  leb, ltb, ◌==◌, if◌then◌else◌, str_eq, any, filter, map, length,
}
use bunmail.Dict.{Dict, get, set}
use bunmail.Emails.Row.{RowStatus, RowValues, Change, unchanged, to}

-- The columns that claims read or set, and the bytes kept for the row's attachments.
pub record EmailRow : Type 0 where
  pub api_key_id : String
  pub status : RowStatus
  pub attempts : ℕ
  pub locked_by : Option String
  pub lease_until : Option ℕ
  pub updated_at : ℕ
  pub next_attempt_at : ℕ
  pub created_at : ℕ
  pub deleted_at : Option ℕ
  pub attachment_bytes : ℕ

abbrev pub Rows : Type 0
Rows = Dict EmailRow

-- `LEASE_MINUTES`, in milliseconds
abbrev pub lease_ms : ℕ
lease_ms = 15 * 60000

abbrev pub is_queued : RowStatus → Bool
is_queued RowStatus.queued = true
is_queued _ = false

abbrev pub is_sending : RowStatus → Bool
is_sending RowStatus.sending = true
is_sending _ = false

abbrev pub is_null : Option ℕ → Bool
is_null none = true
is_null (some t) = false

abbrev lease_end : EmailRow → ℕ
lease_end r = elim r.lease_until [ none ↦ r.updated_at + lease_ms | some t ↦ t ]

-- `LEASE_EXPIRED`
abbrev pub lease_expired : ℕ → EmailRow → Bool
lease_expired now r = ltb (lease_end r) now

pub record Claim : Type 0 where
  pub email_id : String
  pub attempt : ℕ

abbrev pub is_worker : Option String → String → Bool
is_worker none worker = false
is_worker (some w) worker = str_eq w worker

-- The row is still in this worker's claim.
abbrev pub held_by : String → Claim → EmailRow → Bool
held_by worker claim r =
    is_worker r.locked_by worker && (r.attempts == claim.attempt && is_sending r.status)

abbrev pub claimed_row : String → ℕ → EmailRow → EmailRow
claimed_row worker now r = record r {
  status = RowStatus.sending;
  attempts = r.attempts + 1;
  locked_by = some worker;
  lease_until = some (now + lease_ms);
  updated_at = now;
}

-- `UPDATE ... WHERE id IN (...)`, and what it returns.
abbrev pub chosen : List String → String → Bool
chosen ids id = any (λ i. str_eq i id) ids

unfoldable pub update_in : List String → (EmailRow → EmailRow) → Rows → Rows
update_in ids f [] = []
update_in ids f ((id, r) ∷ rows) = (id, if chosen ids id then f r else r) ∷ update_in ids f rows

unfoldable pub returned_in : List String → (EmailRow → EmailRow) → Rows → Rows
returned_in ids f [] = []
returned_in ids f ((id, r) ∷ rows) =
    if chosen ids id then (id, f r) ∷ returned_in ids f rows else returned_in ids f rows

-- `UPDATE ... WHERE id = ... AND ...`, and whether it returned the row.
abbrev pub update_found :
    Rows → String → (EmailRow → Bool) → (EmailRow → EmailRow) → Option EmailRow → Rows × Bool
update_found rows id test f none = (rows, false)
update_found rows id test f (some r) = if test r then (set rows id (f r), true) else (rows, false)

unfoldable pub update_one : Rows → String → (EmailRow → Bool) → (EmailRow → EmailRow) → Rows × Bool
update_one rows id test f = update_found rows id test f (get rows id)

unfoldable pub renew_lease : Rows → String → Claim → ℕ → Rows × Bool
unfolding update_one
renew_lease rows worker claim now =
    update_one rows claim.email_id (held_by worker claim)
      (λ r. record r { lease_until = some (now + lease_ms) })

-- The leases of a worker that stops are over at once.
abbrev pub unleased_row : String → ℕ → EmailRow → EmailRow
unleased_row worker now r =
    if is_worker r.locked_by worker && is_sending r.status
    then record r { lease_until = some now }
    else r

unfoldable pub release_own_leases : Rows → String → ℕ → Rows
release_own_leases [] worker now = []
release_own_leases ((id, r) ∷ rows) worker now =
    (id, unleased_row worker now r) ∷ release_own_leases rows worker now

-- `FINAL_STATUSES`
abbrev pub is_final : RowStatus → Bool
is_final RowStatus.sent = true
is_final RowStatus.failed = true
is_final RowStatus.bounced = true
is_final _ = false

abbrev pub changed : Change ℕ → ℕ → ℕ
changed unchanged old = old
changed (to new) old = new

abbrev pub next_attempt : Change ℕ → ℕ → ℕ → ℕ
next_attempt unchanged now old = old
next_attempt (to ms) now old = now + ms

-- The values of an outcome, the lease dropped; a final row's attachments lose their bytes.
abbrev pub released_row : RowValues → ℕ → EmailRow → EmailRow
released_row values now r = record r {
  status = values.status;
  attempts = changed values.attempts r.attempts;
  next_attempt_at = next_attempt values.next_attempt_in_ms now r.next_attempt_at;
  locked_by = none;
  lease_until = none;
  updated_at = now;
  attachment_bytes = if is_final values.status then 0 else r.attachment_bytes;
}

unfoldable pub release_row : Rows → String → Claim → RowValues → ℕ → Rows × Bool
unfolding update_one
release_row rows worker claim values now =
    update_one rows claim.email_id (held_by worker claim) (released_row values now)

unfoldable pub trash_email : Rows → String → String → ℕ → Rows × Bool
unfolding update_one
trash_email rows id api_key_id now =
    update_one rows id (λ r. str_eq r.api_key_id api_key_id && is_null r.deleted_at)
      (λ r. record r { deleted_at = some now })

unfoldable pub restore_email : Rows → String → String → Rows × Bool
unfolding update_one
restore_email rows id api_key_id =
    update_one rows id (λ r. str_eq r.api_key_id api_key_id && not (is_null r.deleted_at))
      (λ r. record r { deleted_at = none })

abbrev pub is_sent : RowStatus → Bool
is_sent RowStatus.sent = true
is_sent _ = false

abbrev pub is_sent_or_failed : RowStatus → Bool
is_sent_or_failed RowStatus.sent = true
is_sent_or_failed RowStatus.failed = true
is_sent_or_failed _ = false

unfoldable pub mark_email_bounced : Rows → String → ℕ → Rows × Bool
unfolding update_one
mark_email_bounced rows id now =
    update_one rows id (λ r. is_sent_or_failed r.status)
      (λ r. record r { status = RowStatus.bounced; updated_at = now })

unfoldable pub mark_email_blocked : Rows → String → ℕ → Rows × Bool
unfolding update_one
mark_email_blocked rows id now =
    update_one rows id (λ r. is_sent r.status)
      (λ r. record r { status = RowStatus.failed; updated_at = now })
