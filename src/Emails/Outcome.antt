-- ===== src/Emails/Outcome.antt =====
-- src/modules/emails/services/queue-outcome.service.ts: the bounces that a send attempt files.
pub mod Once
use bunmail.Prelude.{
  ℕ, String, Bool, true, false, not, ◌&&◌, ◌||◌, List, [], ◌∷◌, ◌++◌, Option, none, some, str_eq,
  if◌then◌else◌, map,
}
use bunmail.Dict.{Dict, get}
use bunmail.Emails.Decision.{Entry, has_status, failure_of, is_hard}
use bunmail.Emails.Delivery.{
  GroupStatus, sent, retry, failed, status_eq, FailureKind, hard, policy, soft, ParsedSmtpError,
  DeliveryGroup, DeliveryState,
}

pub data BounceType : Type 0 where
  hard_bounce soft_bounce : BounceType

pub record InlineBounce : Type 0 where
  pub recipient : String
  pub bounce_type : BounceType
  pub code : String
  pub diagnostic : String

abbrev pub mailbox_full : String
mailbox_full = "4.2.2"

abbrev pub diagnostic_of : DeliveryGroup → String
diagnostic_of g = elim g.last_error [ none ↦ "(no diagnostic)" | some e ↦ e ]

pub bounces_of : BounceType → String → DeliveryGroup → List InlineBounce
bounces_of type code g =
    map
      (λ r. record { recipient = r; bounce_type = type; code = code; diagnostic = diagnostic_of g })
      g.recipients

abbrev pub is_status : GroupStatus → Option GroupStatus → Bool
is_status s none = false
is_status s (some t) = status_eq t s

abbrev status_of : Option DeliveryGroup → Option GroupStatus
status_of none = none
status_of (some g) = some g.status

abbrev is_soft : Option FailureKind → Bool
is_soft (some soft) = true
is_soft _ = false

abbrev is_code : String → Option String → Bool
is_code c none = false
is_code c (some d) = str_eq d c

-- One group of `exhaustedSoftBounces`: tried again to the end, its mailbox full.
pub soft_bounces_of : DeliveryState → Entry → List InlineBounce
unfolding bounces_of
soft_bounces_of final (key, g) =
    if not (has_status retry g)
    then []
    else if not (is_status failed (status_of (get final key)))
    then []
    else if not (is_soft g.failure_kind && is_code mailbox_full g.failure_code)
    then []
    else bounces_of soft_bounce mailbox_full g

pub exhausted_soft_bounces : DeliveryState → DeliveryState → List InlineBounce
unfolding soft_bounces_of
exhausted_soft_bounces [] final = []
exhausted_soft_bounces (e ∷ attempt) final =
    soft_bounces_of final e ++ exhausted_soft_bounces attempt final

module _ (parse : String → Option ParsedSmtpError) where
  abbrev pub hard_code : Option ParsedSmtpError → String
  hard_code none = ""
  hard_code (some e) = e.code

  -- One group of the loop of `recordSendOutcome`: newly failed, and refused for good.
  pub hard_bounces_of : Dict GroupStatus → Entry → List InlineBounce
  hard_bounces_of prior (key, g) =
      if not (has_status failed g)
      then []
      else if is_status failed (get prior key)
      then []
      else if not (is_hard parse g)
      then []
      else bounces_of hard_bounce (hard_code (failure_of parse g)) g

  pub hard_bounces : Dict GroupStatus → DeliveryState → List InlineBounce
  hard_bounces prior [] = []
  hard_bounces prior (e ∷ state) = hard_bounces_of prior e ++ hard_bounces prior state
