-- ===== src/Submission/Auth/Tests.antt =====
-- Runs of the limit on authentication attempts.
use bunmail.Prelude.{ℕ, ◌≤◌, refl, String, true, List, [], ◌∷◌, none, str_eq, if◌then◌else◌, arith}
use bunmail.Shared.Window.{MemoryWindowCounter}
use bunmail.Shared.Facade.{WindowBackend}
use bunmail.Submission.Auth.{Lookup, found, not_found}
use bunmail.Submission.Auth.Flights.{AuthEvent, begins, ends, waiting}
use bunmail.Submission.Auth.Steps.{wrong_guesses}
use bunmail.Submission.Auth.Guesses.{wrong_guesses-le-max}

abbrev no_backend : WindowBackend ℕ
no_backend = record {
  take = λ b keys o at. (b, none);
  peek = λ b key at. (b, none);
  refund = λ b key id at. (b, none);
  delete_all = λ b keys at. (b, none);
  mark_once = λ b key at. (b, none);
}

-- The key "good" is active, and no other is known.
abbrev lookup : String → Lookup
lookup candidate =
    if str_eq candidate "good" then found (record { id = "k"; is_active = true }) else not_found

abbrev empty : MemoryWindowCounter
empty = record { entries = []; seq = 0 }

-- Three attempts overlap: one takes the wrong key, one the right key, and the third is refused.
abbrev steps : List AuthEvent
steps =
    begins "10.0.0.1" "a" 100
    ∷ begins "10.0.0.1" "good" 101
    ∷ begins "10.0.0.1" "b" 102
    ∷ begins "10.0.0.2" "c" 102
    ∷ ends 1 103
    ∷ ends 1 104
    ∷ begins "10.0.0.1" "d" 105
    ∷ ends 1 106
    ∷ []

wrong_guesses-le-max_example :
    wrong_guesses no_backend (λ ip. ip) lookup 2 60 0 "10.0.0.1" (empty, []) steps ≤ 2
unfolding bunmail.Dict.get waiting
wrong_guesses-le-max_example =
    wrong_guesses-le-max no_backend (λ ip. ip) lookup 2 60 0 empty [] "10.0.0.1" 100 steps refl refl
      (omega arith)
