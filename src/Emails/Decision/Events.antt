-- ===== src/Emails/Decision/Events.antt =====
-- Webhook events: `email.sent` is raised once for an email, however many passes it takes.
use bunmail.Prelude.{
  ℕ, suc, ◌+◌, ◌≤◌, String, ap, ◌≡◌, ◌∙◌, refl, Bool, false, not, ◌&&◌, ◌||◌, List, [], ◌∷◌,
  if◌then◌else◌, arith, Bool-cases, Option-cases, inl, inr,
}
use bunmail.Emails.Row.{RowStatus}
use bunmail.Emails.Delivery.{
  GroupStatus, sent, retry, failed, DeliveryGroup, DeliveryState, ClaimedEmail, SentAttempt,
  OutcomeEvent, email_sent, email_failed,
}
use bunmail.Emails.Send.{prior_statuses_of, drop_from, drop_suppressed_recipients}
use bunmail.Emails.Decision.{
  Settings, has_status, any_group, any_sent_before, attempted, retry_delay_of, deferred_keys,
  finish, final_status, final_events, sent_events, end_row, requeue, deferral, RowOutcome, deferred,
  requeued, terminal, decide_row_outcome,
}
use bunmail.Emails.Decision.Terminal.{finish_sent}

abbrev pub events_of : RowOutcome → List OutcomeEvent
events_of (deferred v events ms n) = events
events_of (requeued v events seconds n) = events
events_of (terminal v events s final) = events

abbrev pub sent_count : List OutcomeEvent → ℕ
sent_count [] = 0
sent_count (email_sent e id ∷ events) = suc (sent_count events)
sent_count (email_failed e text blocked ∷ events) = sent_count events

-- Whether this attempt landed the email's first group.
abbrev first_landed : SentAttempt → Bool
first_landed a =
    any_group (has_status sent) a.delivery_state && not (any_sent_before a.prior_statuses)

sent_count-sent_events :
    (email : ClaimedEmail) (a : SentAttempt) (b : Bool)
    → sent_count (sent_events email a b)
      ≡ (if b && not (any_sent_before a.prior_statuses) then 1 else 0)
unfolding sent_events
sent_count-sent_events email a b = ground arith

sent_count-final_events :
    (email : ClaimedEmail) (a : SentAttempt) (final : DeliveryState) (s : RowStatus)
    → sent_count (final_events email a final s) ≡ (
        if any_group (has_status sent) final && not (any_sent_before a.prior_statuses)
        then 1
        else 0)
unfolding final_events sent_events
sent_count-final_events email a final s = ground arith

-- Whatever the outcome, the attempt raises `email.sent` at most once, and only if a group is
-- delivered now and none was before.
sent_count-le :
    (c : Settings) (email : ClaimedEmail) (a : SentAttempt)
    → sent_count (events_of (decide_row_outcome c email a)) ≤ (if first_landed a then 1 else 0)
unfolding decide_row_outcome end_row requeue deferral
sent_count-le c email a = elim (Option-cases (retry_delay_of c email a)) [
  | inl over ↦
      let final = finish (deferred_keys a) a.delivery_state in
      rw (over, decide_row_outcome)
        (rw
          (
            sent_count-final_events email a final (final_status c.parse_smtp_error final),
            finish_sent (deferred_keys a) a.delivery_state,
          )
          (omega arith))
  | inr (ms, wait) ↦
      rw (wait, decide_row_outcome)
        (elim (Bool-cases (attempted a)) [
          | inl tried ↦ rw tried (
              rw (sent_count-sent_events email a (any_group (has_status sent) a.delivery_state))
                (omega arith))
          | inr held ↦ rw held (omega arith)
        ])
]

-- What was delivered before an attempt is delivered after it.
abbrev pub Keeps : SentAttempt → Type 0
Keeps a =
    (any_sent_before a.prior_statuses && not (any_group (has_status sent) a.delivery_state)) ≡ false

-- A pass: the email as it is claimed, the attempt, and the list of suppressions and the time at which
-- the pass drops the suppressed recipients.
abbrev pub Pass : Type 0
Pass = ClaimedEmail × SentAttempt × (String → Bool) × ℕ

-- Passes of one email in their order: each reads the statuses of what the one before it stored, once
-- the recipients that are suppressed by then are dropped, and what is delivered stays delivered.
abbrev pub Follows : Pass → List Pass → Type 0
Follows (email, a, s, at) [] = Keeps a
Follows (email, a, s, at) ((email', b, is_suppressed, now) ∷ more) =
    Keeps a
    × (b.prior_statuses
        ≡ prior_statuses_of (drop_suppressed_recipients is_suppressed now a.delivery_state))
    × Follows (email', b, is_suppressed, now) more

-- The `email.sent` events that a sequence of passes raises.
pub sent_events_in : Settings → List Pass → ℕ
sent_events_in c [] = 0
sent_events_in c ((email, a, s, at) ∷ more) =
    sent_count (events_of (decide_row_outcome c email a)) + sent_events_in c more

any_sent_before-prior_statuses_of :
    (state : DeliveryState)
    → any_sent_before (prior_statuses_of state) ≡ any_group (has_status sent) state
unfolding any_sent_before prior_statuses_of
any_sent_before-prior_statuses_of [] = refl
any_sent_before-prior_statuses_of ((mx, g) ∷ state) =
    ap (λ b. has_status sent g || b) (any_sent_before-prior_statuses_of state)

-- Dropping suppressed recipients touches no group that is delivered, and delivers none.
drop_from-sent :
    (is_suppressed : String → Bool) (now : ℕ) (g : DeliveryGroup)
    → has_status sent (drop_from is_suppressed now g) ≡ has_status sent g
unfolding drop_from
drop_from-sent is_suppressed now g = by_status g.status refl
  where
    by_status :
        (s : GroupStatus)
        → g.status ≡ s
        → has_status sent (drop_from is_suppressed now g) ≡ has_status sent g
    by_status sent e = ground (arith, e)
    by_status retry e = ground (arith, e)
    by_status failed e = ground (arith, e)

any_group-drop :
    (is_suppressed : String → Bool) (now : ℕ) (state : DeliveryState)
    → any_group (has_status sent) (drop_suppressed_recipients is_suppressed now state)
      ≡ any_group (has_status sent) state
unfolding drop_suppressed_recipients
any_group-drop is_suppressed now [] = refl
any_group-drop is_suppressed now ((mx, g) ∷ state) =
    rw (drop_from-sent is_suppressed now g, any_group-drop is_suppressed now state) refl

sent_events_in-le :
    (more : List Pass) (c : Settings) (email : ClaimedEmail) (a : SentAttempt) (s : String → Bool)
    (at : ℕ)
    → Follows (email, a, s, at) more
    → sent_events_in c ((email, a, s, at) ∷ more)
      ≤ (if any_sent_before a.prior_statuses then 0 else 1)
unfolding sent_events_in
sent_events_in-le [] c email a s at keeps = ground (arith, sent_count-le c email a)
sent_events_in-le ((email', b, is_suppressed, now) ∷ more) c email a s at (keeps, reads, follows) =
    ground (
      arith,
      sent_count-le c email a,
      sent_events_in-le more c email' b is_suppressed now follows,
      ap any_sent_before reads
          ∙ any_sent_before-prior_statuses_of
              (drop_suppressed_recipients is_suppressed now a.delivery_state)
          ∙ any_group-drop is_suppressed now a.delivery_state,
    )

-- Over any number of passes of one email, `email.sent` is raised at most once, where each pass reads
-- the state that the one before it stored, drops from it the recipients that are suppressed by then,
-- and takes its earlier statuses from what is left, and where no pass's mailer loses a group's
-- delivery: if some group was delivered before a pass, some group is after it.
pub sent_events_in-le-one :
    (c : Settings) (email : ClaimedEmail) (a : SentAttempt) (s : String → Bool) (at : ℕ)
    (more : List Pass)
    → Follows (email, a, s, at) more
    → sent_events_in c ((email, a, s, at) ∷ more) ≤ 1
sent_events_in-le-one c email a s at more follows =
    ground (arith, sent_events_in-le more c email a s at follows)
