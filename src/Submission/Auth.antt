-- ===== src/Submission/Auth.antt =====
-- src/modules/smtp-submission/services/submission-limits.ts: the limits on submission sessions and
-- on authentication attempts. The bucket of an address (`rateLimitBucket`) and the key lookup are
-- parameters; the lookup ends at a time of its own.
pub mod Flights
pub mod Steps
pub mod Outcomes
pub mod Kept
pub mod Ended
pub mod Guesses
mod Tests
use bunmail.Prelude.{
  ℕ, ◌*◌, String, Bool, true, false, not, List, [], ◌∷◌, Option, none, some, if◌then◌else◌, str_eq,
}
use bunmail.Dict.{Dict, get}
use bunmail.Shared.Window.{WindowOptions, is_limited, windows_of}
use bunmail.Shared.Window.Single.{one_of}
use bunmail.Shared.Facade
use bunmail.Shared.Facade.{SharedCounter, WindowBackend, StoreTag}

pub record AuthRateLimit : Type 0 where
  pub enabled : Bool
  pub max_attempts : ℕ
  pub window_sec : ℕ

pub record ApiKey : Type 0 where
  pub id : String
  pub is_active : Bool

-- What the lookup of a key ends with: it may throw, or find no key.
pub data Lookup : Type 0 where
  threw : Lookup
  not_found : Lookup
  found : ApiKey → Lookup

pub data AuthOutcome : Type 0 where
  rate_limited no_credentials invalid lookup_failed : AuthOutcome
  authenticated : ApiKey → AuthOutcome

-- A counted attempt: its bucket, and the ticket.
pub record AuthAttempt : Type 0 where
  pub bucket : String
  pub tag : StoreTag
  pub windows : Dict ℕ

module _ {B : Type 0} (ops : WindowBackend B) (bucket_of : String → String) where
  pub take_submission_connection : SharedCounter B → String → ℕ → ℕ → ℕ → SharedCounter B × Bool
  take_submission_connection s ip max window_sec at =
      let (s', tag, decision) =
        Facade.take ops s (bucket_of ip ∷ []) (one_of max (window_sec * 1000)) at in
      (s', is_limited decision)

  pub take_auth_attempt :
      SharedCounter B → String → ℕ → ℕ → ℕ → SharedCounter B × Option AuthAttempt
  take_auth_attempt s ip max_attempts window_sec at =
      let bucket = bucket_of ip in
      let (s', tag, decision) =
        Facade.take ops s (bucket ∷ []) (one_of max_attempts (window_sec * 1000)) at in
      let attempt : AuthAttempt = record {
        bucket = bucket;
        tag = tag;
        windows = windows_of decision;
      } in
      (s', if is_limited decision then none else some attempt)

  pub refund_auth_attempt : SharedCounter B → Option AuthAttempt → ℕ → SharedCounter B
  refund_auth_attempt s none at = s
  refund_auth_attempt s (some attempt) at = elim (get attempt.windows attempt.bucket) [
    | none ↦ s
    | some id ↦ Facade.refund ops s attempt.bucket (attempt.tag, id) at
  ]

  -- From the test of the candidate on.
  pub authenticate :
      SharedCounter B → Option AuthAttempt → String → Lookup → ℕ → SharedCounter B × AuthOutcome
  authenticate s attempt candidate lookup later =
      if str_eq candidate "" then (s, no_credentials) else elim lookup [
        | threw ↦ (refund_auth_attempt s attempt later, lookup_failed)
        | not_found ↦ (s, invalid)
        | found key ↦
            if key.is_active
            then (refund_auth_attempt s attempt later, authenticated key)
            else (s, invalid)
      ]

  -- Up to the lookup: the attempt is refused, or goes on and is counted where the limit is on.
  pub begin_auth :
      SharedCounter B → String → AuthRateLimit → ℕ → SharedCounter B × Option (Option AuthAttempt)
  unfolding take_auth_attempt
  begin_auth s ip limit at =
      if limit.enabled
      then (let (s', counted) = take_auth_attempt s ip limit.max_attempts limit.window_sec at in
          (s', elim counted [ none ↦ none | some attempt ↦ some (some attempt) ]))
      else (s, some none)

  -- The whole call, where nothing comes in between; `lookup candidate` is what the lookup of the
  -- candidate ends with, at time `later`. Calls that overlap are steps of `begin_auth` and
  -- `authenticate`.
  pub throttled_auth :
      SharedCounter B
      → String
      → String
      → AuthRateLimit
      → (String → Lookup)
      → ℕ
      → ℕ
      → SharedCounter B × AuthOutcome
  unfolding begin_auth authenticate refund_auth_attempt
  throttled_auth s ip candidate limit lookup at later =
      let (s', begun) = begin_auth s ip limit at in
      elim begun [
        | none ↦ (s', rate_limited)
        | some attempt ↦ authenticate s' attempt candidate (lookup candidate) later
      ]
