-- ===== src/Emails/Queue/Log.antt =====
-- The history of claims and saved outcomes, newest first, and the steps of workers on the rows.
use bunmail.Prelude.{
  ℕ, String, Bool, true, false, not, List, [], ◌∷◌, ◌++◌, Option, none, some, if◌then◌else◌, str_eq,
  filter, ◌==◌,
}
use bunmail.Emails.Delivery.{ClaimedEmail}
use bunmail.Emails.Decision.{Settings}
use bunmail.Emails.Attempt.{SenderDomain, MailerResult, send_claimed_email, claim_of}
use bunmail.Emails.Queue.{
  Rows, Claim, renew_lease, release_own_leases, trash_email, restore_email, mark_email_bounced,
  mark_email_blocked,
}
use bunmail.Emails.Queue.Pick.{Scan, claim_next_emails}

pub data Event : Type 0 where
  claimed saved : String → Claim → Event

abbrev pub event_id : Event → String
event_id (claimed worker c) = c.email_id
event_id (saved worker c) = c.email_id

-- The newest event of an email.
abbrev pub latest : String → List Event → Option Event
latest id [] = none
latest id (e ∷ log) = if str_eq (event_id e) id then some e else latest id log

-- The attempts that were claimed and whose outcome is not saved.
abbrev pub open_attempts : String → List Event → List ℕ
open_attempts id [] = []
open_attempts id (claimed worker c ∷ log) =
    let rest = open_attempts id log in if str_eq c.email_id id then c.attempt ∷ rest else rest
open_attempts id (saved worker c ∷ log) =
    let rest = open_attempts id log in
    if str_eq c.email_id id then filter (λ k. not (k == c.attempt)) rest else rest

abbrev pub claim_events : String → Rows → List Event
claim_events worker [] = []
claim_events worker ((id, r) ∷ rows) =
    claimed worker (record { email_id = id; attempt = r.attempts }) ∷ claim_events worker rows

abbrev pub save_events : String → Claim → Bool → List Event
save_events worker c true = saved worker c ∷ []
save_events worker c false = []

pub record Queue : Type 0 where
  pub rows : Rows
  pub log : List Event

-- One statement of one worker, or of the API.
pub data QueueStep (q : Queue) : Queue → Type 0 where
  by_claim :
      (worker : String) (scan : Scan) (n : ℕ)
      → QueueStep q (record {
        rows = (claim_next_emails q.rows worker scan n).0;
        log = claim_events worker (claim_next_emails q.rows worker scan n).1 ++ q.log;
      })
  by_renewal :
      (worker : String) (c : Claim) (now : ℕ)
      → QueueStep q (record q { rows = (renew_lease q.rows worker c now).0 })
  by_shutdown :
      (worker : String) (now : ℕ)
      → QueueStep q (record q { rows = release_own_leases q.rows worker now })
  by_outcome :
      (worker : String) (s : Settings) (email : ClaimedEmail) (key_active production : Bool)
      (domain : Option SenderDomain) (result : MailerResult) (now : ℕ)
      → QueueStep q (record {
        rows = (send_claimed_email q.rows worker s email key_active production domain result now).0;
        log =
            save_events worker
              (claim_of email)
              (send_claimed_email q.rows worker s email key_active production domain result now).1
            ++ q.log;
      })
  by_trash :
      (id key : String) (now : ℕ)
      → QueueStep q (record q { rows = (trash_email q.rows id key now).0 })
  by_restore : (id key : String) → QueueStep q (record q { rows = (restore_email q.rows id key).0 })
  by_bounce :
      (id : String) (now : ℕ)
      → QueueStep q (record q { rows = (mark_email_bounced q.rows id now).0 })
  by_block :
      (id : String) (now : ℕ)
      → QueueStep q (record q { rows = (mark_email_blocked q.rows id now).0 })

pub data QueueSteps : Queue → Queue → Type 0 where
  none_left : {q : Queue} → QueueSteps q q
  next : {q u v : Queue} → QueueStep q u → QueueSteps u v → QueueSteps q v

-- What every step keeps, any number of steps keep.
pub steps_keep {ℓ} :
    (P : Queue → Type ℓ)
    → ((q u : Queue) → QueueStep q u → P q → P u)
    → (q v : Queue) → QueueSteps q v
    → P q
    → P v
steps_keep P keep q _ none_left h = h
steps_keep P keep q v (next {u = u} s rest) h = steps_keep P keep u v rest (keep q u s h)
