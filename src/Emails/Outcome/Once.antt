-- ===== src/Emails/Outcome/Once.antt =====
-- A failure is filed by one pass.
use bunmail.Prelude.{
  ◌≡◌, String, false, ◌&&◌, List, [], ◌∷◌, ◌++◌, Option, some, map, if◌then◌else◌,
}
use bunmail.Dict.{Dict, get}
use bunmail.Emails.Decision.{Entry, has_status, is_hard}
use bunmail.Emails.Delivery.{GroupStatus, failed, ParsedSmtpError, DeliveryState}
use bunmail.Emails.Outcome.{InlineBounce, is_status}

-- `prior` has the status of the entry.
abbrev Recorded : Dict GroupStatus → Entry → Type 0
Recorded prior e = get prior e.0 ≡ some e.1.status

-- `prior` has the entry not as failed.
abbrev pub Unfailed : Dict GroupStatus → Entry → Type 0
Unfailed prior e = is_status failed (get prior e.0) ≡ false

pub recipients_of : List InlineBounce → List String
recipients_of bounces = map (λ (b : InlineBounce). b.recipient) bounces

module _ (parse : String → Option ParsedSmtpError) where
  -- The recipients of the groups that failed for good: by the text or the kind of the last error.
  pub refused_for_good : DeliveryState → List String
  refused_for_good [] = []
  refused_for_good ((key, g) ∷ state) =
      if has_status failed g && is_hard parse g
      then g.recipients ++ refused_for_good state
      else refused_for_good state
