-- ===== src/Submission/Auth/Steps.antt =====
-- The limit on authentication attempts as steps that overlap.
use bunmail.Prelude.{
  ℕ, ◌+◌, get_elem?, String, true, List, [], ◌∷◌, Option, none, some, if◌then◌else◌,
}
use bunmail.Shared.Window.{MemoryWindowCounter}
use bunmail.Shared.Facade.{SharedCounter, WindowBackend}
use bunmail.Submission.Auth.{
  AuthRateLimit, Lookup, AuthOutcome, invalid, AuthAttempt, authenticate, begin_auth,
}
use bunmail.Submission.Auth.Flights.{State, Flight, AuthEvent, begins, ends, remove_at, on_key}

abbrev pub is_invalid : AuthOutcome → ℕ
is_invalid invalid = 1
is_invalid _ = 0

-- This process counts in its memory, for want of a backend.
abbrev pub in_memory : {B : Type 0} → ℕ → MemoryWindowCounter → SharedCounter B
in_memory g c = record { installed = none; generation = g; local = c }

module _ {B : Type 0} (ops : WindowBackend B) (bucket_of : String → String)
    (lookup : String → Lookup) (max window_sec g : ℕ) where
  abbrev pub limit : AuthRateLimit
  limit = record { enabled = true; max_attempts = max; window_sec = window_sec }

  abbrev pub begun :
      MemoryWindowCounter → List Flight → String → Option (Option AuthAttempt) → State
  begun c fs candidate none = (c, fs)
  begun c fs candidate (some attempt) = (c, (attempt, candidate) ∷ fs)

  abbrev pub ended : String → MemoryWindowCounter → List Flight → ℕ → ℕ → Option Flight → State × ℕ
  ended key c fs i at none = ((c, fs), 0)
  ended key c fs i at (some (attempt, candidate)) =
      let (s, outcome) =
        authenticate ops bucket_of (in_memory g c) attempt candidate (lookup candidate) at in
      ((s.local, remove_at fs i), if on_key key (attempt, candidate) then is_invalid outcome else 0)

  -- One step, and how many wrong credentials it finds that were tried from the bucket `key`.
  unfoldable pub auth_step : String → State → AuthEvent → State × ℕ
  unfolding begin_auth authenticate
  auth_step key (c, fs) (begins ip candidate at) =
      let (s, attempt) = begin_auth ops bucket_of (in_memory g c) ip limit at in
      (begun s.local fs candidate attempt, 0)
  auth_step key (c, fs) (ends i at) = ended key c fs i at (get_elem? fs i)

  -- The wrong credentials from `key` over the steps.
  unfoldable pub wrong_guesses : String → State → List AuthEvent → ℕ
  unfolding auth_step
  wrong_guesses key s [] = 0
  wrong_guesses key s (a ∷ more) =
      let (s', wrong) = auth_step key s a in wrong + wrong_guesses key s' more
