-- ===== src/Emails/Decision/Terminal.antt =====
-- What a final outcome holds.
use bunmail.Prelude.{
  ◌≡◌, refl, String, false, ◌&&◌, List, [], ◌∷◌, if◌then◌else◌, arith, Bool-cases, Option-cases,
  inl, inr,
}
use bunmail.Emails.Row.{RowStatus, RowValues}
use bunmail.Emails.Delivery.{
  sent, retry, failed, DeliveryState, ClaimedEmail, SentAttempt, OutcomeEvent,
}
use bunmail.Emails.Decision.{
  Entry, Settings, has_status, any_group, deferred_keys, finished, finish, is_hard, final_status,
  end_row, attempted, retry_delay_of, RowOutcome, terminal, requeue, deferral, decide_row_outcome,
}

finished_settled : (keys : List String) (e : Entry) → has_status retry (finished keys e).1 ≡ false
unfolding finished
finished_settled keys (mx, g) = ground arith

finished_sent :
    (keys : List String) (e : Entry) → has_status sent (finished keys e).1 ≡ has_status sent e.1
unfolding finished
finished_sent keys (mx, g) = ground arith

finish_settled :
    (keys : List String) (state : DeliveryState)
    → any_group (has_status retry) (finish keys state) ≡ false
unfolding finish
finish_settled keys [] = refl
finish_settled keys (e ∷ state) = rw (finished_settled keys e) (finish_settled keys state)

pub finish_sent :
    (keys : List String) (state : DeliveryState)
    → any_group (has_status sent) (finish keys state) ≡ any_group (has_status sent) state
unfolding finish
finish_sent keys [] = refl
finish_sent keys (e ∷ state) = rw (finished_sent keys e, finish_sent keys state) refl

-- The parts of a final outcome.
abbrev pub Ends :
    (RowValues → List OutcomeEvent → RowStatus → DeliveryState → Type 0) → RowOutcome → Type 0
Ends P (terminal v events s final) = P v events s final
Ends P _ = Unit

-- A final outcome leaves nothing to retry, its row takes its status, that status is "sent" exactly
-- when the attempt's state has a delivered group, and otherwise "bounced" exactly when some group
-- ends as failed for good by its SMTP reply; it is never "queued" or "sending".
pub decide_row_outcome-Ends :
    (c : Settings) (email : ClaimedEmail) (a : SentAttempt)
    → Ends
        (λ v events s final.
          (any_group (has_status retry) final ≡ false)
          × (v.status ≡ s)
          × (s ≡ (
              if any_group (has_status sent) a.delivery_state
              then RowStatus.sent
              else if any_group (λ g. has_status failed g && is_hard c.parse_smtp_error g) final
              then RowStatus.bounced
              else RowStatus.failed)))
        (decide_row_outcome c email a)
unfolding decide_row_outcome end_row requeue deferral final_status
decide_row_outcome-Ends c email a = elim (Option-cases (retry_delay_of c email a)) [
  | inl over ↦
      rw (over, decide_row_outcome)
        (
          finish_settled (deferred_keys a) a.delivery_state,
          refl,
          rw (← finish_sent (deferred_keys a) a.delivery_state) refl,
        )
  | inr (ms, wait) ↦
      rw (wait, decide_row_outcome)
        (elim (Bool-cases (attempted a)) [ inl tried ↦ rw tried tt | inr held ↦ rw held tt ])
]
