-- ===== src/Emails/Send.antt =====
-- src/modules/emails/services/queue-send.service.ts: what a retry pass does to the stored delivery
-- state before it sends. `isSuppressed` of the suppression list is a parameter.
pub mod Suppressed
use bunmail.Prelude.{
  ℕ, suc, ◌+◌, String, Bool, true, false, not, List, [], ◌∷◌, Option, none, some, ◌==◌,
  if◌then◌else◌, filter, length,
}
use bunmail.Dict.{Dict}
use bunmail.Emails.Delivery.{
  GroupStatus, sent, retry, failed, status_eq, DeliveryGroup, DeliveryState,
}

-- `priorStatuses`: each group's status before the attempt. The keys of an object are distinct, so
-- each `set` adds an entry.
unfoldable pub prior_statuses_of : DeliveryState → Dict GroupStatus
prior_statuses_of [] = []
prior_statuses_of ((mx, g) ∷ state) = (mx, g.status) ∷ prior_statuses_of state

abbrev pub suppressed_before_retry : String
suppressed_before_retry = "All recipients were suppressed before this retry"

module _ (is_suppressed : String → Bool) (now : ℕ) where
  unfoldable pub kept : DeliveryGroup → List String
  kept g = filter (λ r. not (is_suppressed r)) g.recipients

  -- One round of the loop over the groups.
  unfoldable pub drop_from : DeliveryGroup → DeliveryGroup
  unfolding kept
  drop_from g =
      if not (status_eq g.status retry)
      then g
      else if length (kept g) == length g.recipients
      then g
      else if length (kept g) == 0
      then record g {
        status = failed;
        last_error = some suppressed_before_retry;
        updated_at = some now;
      }
      else record g { recipients = kept g }

  unfoldable pub drop_suppressed_recipients : DeliveryState → DeliveryState
  unfolding drop_from
  drop_suppressed_recipients [] = []
  drop_suppressed_recipients ((mx, g) ∷ state) =
      (mx, drop_from g) ∷ drop_suppressed_recipients state
