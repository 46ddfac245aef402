-- ===== src/Inbound/Throttle/Tests.antt =====
-- Runs of the notification throttle.
use bunmail.Prelude.{◌+◌, ◌≡◌, String, List, [], ◌∷◌}
use bunmail.Inbound.Throttle.{NotifyThrottle}
use bunmail.Inbound.Throttle.Skipped.{
  ThrottleEvent, arrives, prunes, total, event_reported, event_dropped, event_skipped, pending,
  after, check_accounts,
}

abbrev ascii_lower : String → String
ascii_lower text = text

-- The budget of one address is spent.
abbrev spent : NotifyThrottle
spent = record {
  addresses = ("a@x.test", record { count = 5; window_start = 100 }) ∷ [];
  domains = ("x.test", record { count = 5; window_start = 100 }) ∷ [];
  skipped = [];
}

-- What is skipped at 200 has gone unreported for a day at the second prune.
abbrev events : List (ThrottleEvent ascii_lower)
events =
    arrives "a@x.test" 200
    ∷ prunes 300000
    ∷ arrives "b@x.test" 300001
    ∷ prunes 86400200
    ∷ arrives "a@x.test" 86400300
    ∷ []

check_accounts_example :
    total ascii_lower (event_reported ascii_lower) spent "a@x.test" events
      + total ascii_lower (event_dropped ascii_lower) spent "a@x.test" events
      + pending (after ascii_lower spent events) "a@x.test"
    ≡ pending spent "a@x.test"
      + total ascii_lower (event_skipped ascii_lower) spent "a@x.test" events
check_accounts_example = check_accounts ascii_lower spent "a@x.test" events tt
