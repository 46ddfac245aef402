-- ===== src/Emails/Queue/Pick.antt =====
-- src/modules/emails/services/queue-claim.service.ts: which rows a claim takes, and the claim.
-- Rows that the order of a subquery leaves tied stay in the order of the table.
use bunmail.Prelude.{
  ℕ, suc, String, Bool, not, ◌&&◌, ◌||◌, List, [], ◌∷◌, ◌++◌, leb, ltb, ◌==◌, str_eq, filter, map,
  length, take, sort_by,
}
use bunmail.Emails.Queue.{
  EmailRow, Rows, is_queued, is_sending, is_null, lease_expired, claimed_row, update_in,
  returned_in,
}

-- What a claim sees: the database's clock, the rows that other transactions have locked, the order
-- of ids, and the ids of the API keys.
pub record Scan : Type 0 where
  pub now : ℕ
  pub locked : String → Bool
  pub id_before : String → String → Bool
  pub api_keys : List String

abbrev pub Candidate : Type 0
Candidate = String × EmailRow

abbrev pub is_due : Scan → String → Candidate → Bool
is_due scan key e =
    str_eq e.1.api_key_id key
    && (is_queued e.1.status
        && (is_null e.1.deleted_at && (leb e.1.next_attempt_at scan.now && not (scan.locked e.0))))

abbrev pub is_expired : Scan → Candidate → Bool
is_expired scan e =
    is_sending e.1.status
    && (is_null e.1.deleted_at && (lease_expired scan.now e.1 && not (scan.locked e.0)))

-- `ORDER BY next_attempt_at, created_at`
abbrev pub in_due_order : Candidate → Candidate → Bool
in_due_order a b =
    ltb a.1.next_attempt_at b.1.next_attempt_at
    || (a.1.next_attempt_at == b.1.next_attempt_at && leb a.1.created_at b.1.created_at)

-- `ORDER BY next_attempt_at, created_at, id`, strictly
abbrev pub precedes : Scan → Candidate → Candidate → Bool
precedes scan a b =
    ltb a.1.next_attempt_at b.1.next_attempt_at
    || (a.1.next_attempt_at == b.1.next_attempt_at
        && (ltb a.1.created_at b.1.created_at
            || (a.1.created_at == b.1.created_at && scan.id_before a.0 b.0)))

unfoldable pub per_key : Scan → ℕ → Rows → String → List Candidate
per_key scan n rows key = take n (sort_by in_due_order (filter (is_due scan key) rows))

unfoldable pub per_keys : Scan → ℕ → Rows → List String → List Candidate
per_keys scan n rows [] = []
per_keys scan n rows (key ∷ keys) = per_key scan n rows key ++ per_keys scan n rows keys

unfoldable pub expired : Scan → ℕ → Rows → List Candidate
expired scan n rows = take n (sort_by in_due_order (filter (is_expired scan) rows))

unfoldable pub due : Scan → ℕ → Rows → List Candidate
unfolding per_keys expired
due scan n rows = per_keys scan n rows scan.api_keys ++ expired scan n rows

-- `row_number() OVER (PARTITION BY api_key_id ORDER BY ...)`
unfoldable pub key_rank : Scan → List Candidate → Candidate → ℕ
key_rank scan candidates e =
    suc
      (length (filter (λ o. str_eq o.1.api_key_id e.1.api_key_id && precedes scan o e) candidates))

-- `ORDER BY key_rank, next_attempt_at, created_at, id`
abbrev pub in_fair_order : Scan → List Candidate → Candidate → Candidate → Bool
in_fair_order scan candidates a b =
    ltb (key_rank scan candidates a) (key_rank scan candidates b)
    || (key_rank scan candidates a == key_rank scan candidates b && not (precedes scan b a))

unfoldable pub ranked : Scan → ℕ → Rows → List Candidate
unfolding due
ranked scan n rows = sort_by (in_fair_order scan (due scan n rows)) (due scan n rows)

unfoldable pub fair_due_emails : Scan → ℕ → Rows → List Candidate
unfolding ranked
fair_due_emails scan n rows = take n (ranked scan n rows)

abbrev pub ids_of : List Candidate → List String
ids_of es = map (λ (e : Candidate). e.0) es

abbrev pub fair_due_email_ids : Scan → ℕ → Rows → List String
fair_due_email_ids scan n rows = ids_of (fair_due_emails scan n rows)

unfoldable pub claim_next_emails : Rows → String → Scan → ℕ → Rows × Rows
unfolding update_in returned_in
claim_next_emails rows worker scan n =
    let ids = fair_due_email_ids scan n rows in
    (
      update_in ids (claimed_row worker scan.now) rows,
      returned_in ids (claimed_row worker scan.now) rows,
    )
